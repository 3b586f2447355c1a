-- ===== src/Segments/Replay.antt =====
-- The recovery of `wprof` reads the entries back that the stage logged.
use wdedup.Prelude.{
  ℕ, suc, ◌+◌, ◌-◌, ◌≤◌, ◌^◌, ◌%◌, ◌<◌, ◌≡◌, refl, sym, ap, ap₂, ◌∙◌, subst, Bool, true, List, [],
  ◌∷◌, ◌++◌, some, ◌==◌, if◌then◌else◌, arith, All, length, append_assoc, append-nil, length-append,
}
use wdedup.Errors.{Result, ok, Error, ◌>>=◌}
use wdedup.Serial.{put_char, put_size}
use wdedup.Serial.RoundTrip.{get-put_size}
use wdedup.Rbtree.{Rbtree}
use wdedup.Config.{Config, log_file, log_corrupt, recovery_done}
use wdedup.Plan.{ProfileSegment}
use wdedup.Segments.{
  OriginalFile, Recorded, finished, resumed, segment_entry, end_mark, nothing_recorded,
  record_segment, recover_segment, recover, profile_original, after_recovery, wprof,
}
use wdedup.Segments.Loop.{entries, Chain, Chain-same}

-- The numbers of a segment fit a `size_t`.
abbrev pub IsSized : ProfileSegment → Type 0
IsSized s = (s.start < 2 ^ 64) × (s.stop < 2 ^ 64) × (s.size < 2 ^ 64)

-- What is recorded once these segments are recovered.
abbrev pub recorded_all : Recorded → List ProfileSegment → Recorded
recorded_all r [] = r
recorded_all r (s ∷ segments) =
    recorded_all
      (record {
        result = r.result ++ s ∷ [];
        segments = r.segments + 1;
        offset = (s.stop + 1) % 2 ^ 64;
      })
      segments

result_all :
    (segments : List ProfileSegment) (r : Recorded)
    → (recorded_all r segments).result ≡ r.result ++ segments
result_all [] r = sym (append-nil r.result)
result_all (s ∷ segments) r =
    result_all segments (recorded_all r (s ∷ [])) ∙ append_assoc r.result (s ∷ []) segments

recorded_result :
    (segments : List ProfileSegment) → (recorded_all nothing_recorded segments).result ≡ segments
unfolding nothing_recorded
recorded_result segments = result_all segments _

-- An entry is read back.
recover-segment_entry :
    (r : Recorded) (s : ProfileSegment) (rest : List ℕ) (c : Config)
    → s.id ≡ r.segments
    → s.start ≡ r.offset
    → IsSized s
    → recover_segment r (put_size s.start ++ (put_size s.stop ++ (put_size s.size ++ rest))) c
      ≡ ok (recorded_all r (s ∷ []), rest)
unfolding recover_segment record_segment
recover-segment_entry r s rest c i o (a, b, d) =
    rw (get-put_size (log_file c) s.start (put_size s.stop ++ (put_size s.size ++ rest)) a) (
      rw (get-put_size (log_file c) s.stop (put_size s.size ++ rest) b) (
        rw (get-put_size (log_file c) s.size rest d) (
          ap
            (λ (x : Bool).
              if x
              then ok (record_segment s.start s.stop s.size ((s.stop + 1) % 2 ^ 64) r, rest)
              else log_corrupt c)
            {x = s.start == r.offset} {y = true} (ground (arith, o))
          ∙ ap
              (λ k. ok (
                record {
                  result =
                      r.result
                      ++ record { id = k; start = s.start; stop = s.stop; size = s.size } ∷ [];
                  segments = r.segments + 1;
                  offset = (s.stop + 1) % 2 ^ 64;
                },
                rest,
              ))
              (sym i))))

entry_bytes :
    (s : ProfileSegment) (l tail : List ℕ)
    → (segment_entry s ++ l) ++ tail
      ≡ b's' ∷ (put_size s.start ++ (put_size s.stop ++ (put_size s.size ++ (l ++ tail))))
unfolding segment_entry put_char put_size
entry_bytes s l tail =
    append_assoc (segment_entry s) l tail
    ∙ ap (◌∷◌ b's') (
        append_assoc (put_size s.start) (put_size s.stop ++ put_size s.size) (l ++ tail)
        ∙ ap (◌++◌ (put_size s.start))
            (append_assoc (put_size s.stop) (put_size s.size) (l ++ tail)))

-- The recovery passes over the entries of segments that follow on each other.
recover-entries :
    (segments : List ProfileSegment) (fuel : ℕ) (r : Recorded) (tail : List ℕ) (c : Config)
    → Chain r.segments r.offset segments
    → r.offset < 2 ^ 64
    → All IsSized segments
    → recover (length segments + fuel) r (entries segments ++ tail) c
      ≡ recover fuel (recorded_all r segments) tail c
unfolding recover
recover-entries [] fuel r tail c chain o a = ap (λ n. recover n r tail c) (omega arith)
recover-entries (s ∷ segments) fuel r tail c (i, start, chain) o (sized, a) =
    let r' = recorded_all r (s ∷ []) in
    let n = length segments + fuel in
    let body =
      put_size s.start ++ (put_size s.stop ++ (put_size s.size ++ (entries segments ++ tail))) in
    ap₂ (λ k l. recover k r l c) {x = suc (length segments) + fuel} {y = suc n} (omega arith)
      (entry_bytes s (entries segments) tail)
    ∙ ap (λ (m : Result (Recorded × List ℕ)). m >>= λ (x : Recorded × List ℕ). recover n x.0 x.1 c)
        (recover-segment_entry r s (entries segments ++ tail) c i (omega (arith, start, sized.0, o))
          sized)
    ∙ recover-entries segments fuel r' tail c
        (subst (λ k. Chain k r'.offset segments) {x = suc r.segments} (omega arith)
          (Chain-same (suc r.segments) (s.stop + 1) r'.offset segments (omega arith) chain))
        (omega arith) a

recover_end :
    (fuel : ℕ) (r : Recorded) (c : Config)
    → recover (suc fuel) r (put_char end_mark) c
      ≡ ok (finished r.result (record c { ilog = some [] }))
unfolding recover put_char
recover_end fuel r c = refl

recover_nothing :
    (fuel : ℕ) (r : Recorded) (c : Config)
    → recover (suc fuel) r [] c ≡ ok (resumed r (record c { ilog = some [] }))
unfolding recover
recover_nothing fuel r c = refl

length-segment_entry : (s : ProfileSegment) → length (segment_entry s) ≡ 25
unfolding segment_entry put_char put_size
length-segment_entry s = refl

length-entries : (segments : List ProfileSegment) → length segments ≤ length (entries segments)
length-entries [] = omega arith
length-entries (s ∷ segments) = omega (
  arith,
  length-entries segments,
  length-append (segment_entry s) (entries segments),
  length-segment_entry s,
)

-- The recovery of a whole log, with the fuel that `wprof` gives it.
recover_log :
    (segments : List ProfileSegment) (tail : List ℕ) (c : Config)
    → Chain 0 0 segments
    → All IsSized segments
    → (fuel : ℕ) × (recover
          (length (entries segments ++ tail) + 1)
          nothing_recorded
          (entries segments ++ tail)
          c
        ≡ recover (suc fuel) (recorded_all nothing_recorded segments) tail c)
unfolding nothing_recorded
recover_log segments tail c chain sized =
    let n = length (entries segments ++ tail) - length segments in
    (
      n,
      ap (λ k. recover k nothing_recorded (entries segments ++ tail) c)
            {x = length (entries segments ++ tail) + 1} {y = length segments + suc n}
            (omega (arith, length-append (entries segments) tail, length-entries segments))
          ∙ recover-entries segments (suc n) nothing_recorded tail c chain (omega arith) sized,
    )

module _ (rb : Rbtree) (name : Error) (vmsize sync_distance fuel : ℕ) where
  -- For segments that are numbered from 0, follow on each other from offset 0 and have numbers that fit a
  -- `size_t`: a run on the log that the stage writes for them returns them, with the log read to
  -- its end and nothing else changed, whatever the file is; and a run on a log that ends behind
  -- their entries goes on with the checks of the file and the loop, with these segments recorded
  -- and the log open to be written.
  pub wprof-entries :
      (file : OriginalFile) (segments : List ProfileSegment) (c : Config)
      → Chain 0 0 segments
      → All IsSized segments
      → (wprof rb name vmsize sync_distance fuel file
            (record c { ilog = some (entries segments ++ put_char end_mark) })
          ≡ ok (segments, record c { ilog = some [] }))
        × (wprof rb name vmsize sync_distance fuel file
              (record c { ilog = some (entries segments) })
            ≡ profile_original rb name vmsize sync_distance fuel file
                (recorded_all nothing_recorded segments)
                (recovery_done (record c { ilog = some [] })))
        × ((recorded_all nothing_recorded segments).result ≡ segments)
  unfolding wprof after_recovery
  wprof-entries file segments c chain sized =
      let next = after_recovery rb name vmsize sync_distance fuel file in
      let result = recorded_result segments in
      let (k, e) =
        recover_log segments (put_char end_mark)
          (record c { ilog = some (entries segments ++ put_char end_mark) }) chain sized in
      let (n, f) =
        recover_log segments [] (record c { ilog = some (entries segments) }) chain sized in
      (
        ap (λ m. m >>= next)
              (e
                ∙ recover_end k _
                    (record c { ilog = some (entries segments ++ put_char end_mark) }))
            ∙ ap (λ l. ok (l, record c { ilog = some [] })) result,
        ap (λ m. m >>= next)
            (ap
                (λ l.
                  recover (length l + 1) nothing_recorded l
                    (record c { ilog = some (entries segments) }))
                (sym (append-nil (entries segments)))
              ∙ f
              ∙ recover_nothing n _ (record c { ilog = some (entries segments) })),
        result,
      )
