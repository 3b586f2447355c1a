-- ===== src/Segments/Loop.antt =====
-- The outer loop of `wprof`: the profiles that it leaves say of every word what the text says.
use wdedup.Prelude.{
  ℕ, ◌≤◌, zero, suc, ◌+◌, ◌^◌, ◌%◌, ◌<◌, ◌≡◌, ◌≢◌, refl, sym, ap, ap₂, ◌∙◌, subst, Bool, true,
  false, List, [], ◌∷◌, ◌++◌, ◌⊎◌, inl, inr, Option, none, some, arith, All, All-right, All-mono,
  length, map, append_assoc, append-nil, length-append, Pick, Pick-middle, Bool-cases,
}
use wdedup.Errors.{Result, ok, Error, ◌>>=◌, bind_assoc}
use wdedup.Word.{Word}
use wdedup.Serial.{put_char}
use wdedup.Profile.{Profile}
use wdedup.Profile.Status.{◌⊕◌, status, ⊕_assoc}
use wdedup.Rbtree.{Rbtree}
use wdedup.Dedup.{pour}
use wdedup.Dedup.Refine.{IsOccurrence}
use wdedup.Dedup.Pour.{occurrences, pour-sorted}
use wdedup.Reader.{Reader}
use wdedup.Reader.Text.{InText}
use wdedup.Config.{Config, write_log}
use wdedup.Plan.{ProfileSegment}
use wdedup.Plan.Valid.{segment_id}
use wdedup.Merge.Rounds.{Entry, Inv, total, space}
use wdedup.ProfileFile.Size.{table_size}
use wdedup.Segments.Space.{text_space, text_space-append, table-text_space}
use wdedup.Profiling.{Filled}
use wdedup.Profiling.Fill.{WordsOf, waiting}
use wdedup.Segments.{
  Recorded, Variables, segment_entry, end_mark, write_segment, segment_round, start_segment,
  goes_on, segments_loop,
}
use wdedup.Segments.Round.{
  IsTable, after_output, after_output-Inv, segment_of, recorded_after, write_segment_lem,
  write_log_lem, after_output-log, after_output-ilog, logged-Inv,
}
use wdedup.Segments.Step.{FitsAlone, filling, Step, waited-Step, read-Step}

-- The log entries of segments.
abbrev pub entries : List ProfileSegment → List ℕ
entries [] = []
entries (s ∷ segments) = segment_entry s ++ entries segments

-- Segments that are numbered from `k` and follow on each other from an offset.
abbrev pub Chain : ℕ → ℕ → List ProfileSegment → Type 0
Chain k offset [] = Unit {0}
Chain k offset (s ∷ segments) =
    (s.id ≡ k) × (s.start % 2 ^ 64 ≡ offset % 2 ^ 64) × Chain (suc k) (s.stop + 1) segments

pub Chain-same :
    (k m n : ℕ) (segments : List ProfileSegment)
    → m % 2 ^ 64 ≡ n % 2 ^ 64
    → Chain k m segments
    → Chain k n segments
Chain-same k m n [] e c = tt
Chain-same k m n (s ∷ segments) e (i, o, c) = (i, o ∙ e, c)

occurrences-append :
    (l m : List (Word × ℕ)) (w : Word)
    → status w (occurrences (l ++ m)) ≡ status w (occurrences l) ⊕ status w (occurrences m)
unfolding status
occurrences-append [] m w = refl
occurrences-append (x ∷ l) m w =
    rw (occurrences-append l m w)
      (sym (⊕_assoc _ (status w (occurrences l)) (status w (occurrences m))))

-- The rounds that are left are enough for the words that are left.
enough :
    (iseof iseof' : Bool) (rounds : ℕ) (l done l' : List (Word × ℕ))
    → iseof ≡ false
    → length done + length l' ≡ length l
    → ((iseof ≡ true) × (0 < suc rounds)) ⊎ (length l + 1 < suc rounds)
    → (iseof' ≡ true) ⊎ (done ≢ [])
    → ((iseof' ≡ true) × (0 < rounds)) ⊎ (length l' + 1 < rounds)
enough true iseof' rounds l done l' e size h more = absurd (cc)
enough false iseof' rounds l done l' e size (inl h) more = absurd (cc)
enough false iseof' rounds l done l' e size (inr h) (inl y) = inl (y, omega (arith, h))
enough false iseof' rounds l [] l' e size (inr h) (inr n) = absurd (n refl)
enough false iseof' rounds l (w ∷ done) l' e size (inr h) (inr n) = inr (omega (arith, size, h))

-- The new profile is the last.
round-Inv :
    (id : ℕ) (p : Profile) (bytes : List ℕ) (c : Config) (live : List Entry)
    → Inv c id live
    → IsTable p
    → Inv (after_output id p bytes c) (id + 1) (live ++ (id, p) ∷ [])
round-Inv id p bytes c live inv t =
    subst (λ n. Inv (after_output id p bytes c) n (live ++ (id, p) ∷ [])) {x = suc id} (omega arith)
      (after_output-Inv id p bytes c live inv t (
        subst (Pick (id, p) (live ++ (id, p) ∷ [])) (append-nil live)
          (Pick-middle live (id, p) [])))

module _ (rb : Rbtree) (name : Error) (vmsize sync_distance fuel : ℕ) where
  abbrev Vars : Type 0
  Vars = Variables rb name vmsize sync_distance fuel

  -- The variables of the next round.
  abbrev variables_after : Filled rb → Recorded → Vars
  variables_after x r = record {
    recorded = recorded_after rb x r;
    reader = x.reader;
    input_entry = x.input_entry;
    iseof = x.iseof;
  }

  -- Where a round starts: at the end of the file with nothing left, before the words that are left, or so
  -- with a word that waits.
  abbrev StandsAt : Option (Word × ℕ) → Bool → ℕ → Reader → ℕ → List ℕ → List (Word × ℕ) → Type 0
  StandsAt input_entry iseof offset r pos s rest =
      ((iseof ≡ true) × (input_entry ≡ none) × (rest ≡ []))
      ⊎ (((iseof ≡ false)
            × (input_entry ≡ none)
            × (offset ≡ r.file.tell)
            × InText r pos s
            × WordsOf pos s rest)
          ⊎ ((word : Word × ℕ) × (iseof ≡ false)
              × (input_entry ≡ some word)
              × InText r pos s
              × WordsOf pos s rest))

  abbrev pub Stands : Vars → ℕ → List ℕ → List (Word × ℕ) → Type 0
  Stands v = StandsAt v.input_entry v.iseof v.recorded.offset v.reader

  -- Words that the rounds can take: each occurs at an offset of the file and fits alone.
  abbrev pub AreWords : List (Word × ℕ) → Type 0
  AreWords l = All (λ w. IsOccurrence w × FitsAlone vmsize w) l

  -- What the loop promises: it adds a segment unless the file has ended before; those that it
  -- adds are numbered and follow on each other, and are logged in their order; each has its
  -- profile, and these say together what the words say and take no more bytes than those with
  -- ten for each.
  abbrev pub Records :
      Vars → Config → List Entry → List (Word × ℕ) → Result (List ProfileSegment × Config) → Type 0
  Records v c live l m =
      (added : List ProfileSegment) × (c' : Config) × (more : List Entry) × (m
        ≡ ok (v.recorded.result ++ added, c'))
      × ((v.iseof ≡ true) ⊎ (added ≢ []))
      × Inv c' (v.recorded.segments + length added) (live ++ more)
      × (map (λ (e : Entry). e.0) more ≡ map segment_id added)
      × Chain v.recorded.segments v.recorded.offset added
      × (c'.ilog ≡ c.ilog)
      × (c'.log ≡ c.log ++ (entries added ++ put_char end_mark))
      × (space more ≤ text_space l)
      × ((w : Word) → total w more ≡ status w (occurrences l))

  round_lem :
      (v : Vars) (c : Config) (x : Filled rb)
      → c.olog ≡ true
      → filling rb name vmsize sync_distance fuel v.input_entry v.iseof v.recorded.offset v.reader
        ≡ ok x
      → segment_round rb name vmsize sync_distance fuel v c
        ≡ ok (
          variables_after x v.recorded,
          after_output v.recorded.segments
              (pour rb x.dedup)
              (segment_entry (segment_of rb x v.recorded))
              c,
        )
  unfolding segment_round
  round_lem v c x o e =
      let finish = λ (y : Filled rb).
        write_segment rb name vmsize sync_distance fuel y v.recorded c
        >>= λ (z : Recorded × Config). ok (
          record {
            recorded = z.0;
            reader = y.reader;
            input_entry = y.input_entry;
            iseof = y.iseof;
          },
          z.1,
        ) in
      sym (bind_assoc (start_segment rb name vmsize sync_distance fuel v.input_entry) _ finish)
      ∙ ap (λ m. m >>= finish) e
      ∙ ap
          (λ m. m >>= λ (z : Recorded × Config). ok (
            record {
              recorded = z.0;
              reader = x.reader;
              input_entry = x.input_entry;
              iseof = x.iseof;
            },
            z.1,
          ))
          (write_segment_lem rb name vmsize sync_distance fuel x v.recorded c o)

  step_loop :
      (rounds : ℕ) (v : Vars) (c : Config) (x : Filled rb)
      → goes_on rb name vmsize sync_distance fuel v ≡ true
      → c.olog ≡ true
      → filling rb name vmsize sync_distance fuel v.input_entry v.iseof v.recorded.offset v.reader
        ≡ ok x
      → segments_loop rb name vmsize sync_distance fuel (suc rounds) v c
        ≡ segments_loop rb name vmsize sync_distance fuel rounds (variables_after x v.recorded) (
            after_output v.recorded.segments
              (pour rb x.dedup)
              (segment_entry (segment_of rb x v.recorded))
              c)
  unfolding segments_loop
  step_loop rounds v c x g o e =
      let rounds_to_come =
        λ (y : Vars × Config). segments_loop rb name vmsize sync_distance fuel rounds y.0 y.1 in
      ap
        (λ b. elim b [
          | true ↦ segment_round rb name vmsize sync_distance fuel v c >>= rounds_to_come
          | false ↦ write_log (put_char end_mark) c >>= λ c'. ok (v.recorded.result, c')
        ])
        g
      ∙ ap (λ m. m >>= rounds_to_come) (round_lem v c x o e)

  stopped :
      (v : Vars)
      → v.iseof ≡ true
      → v.input_entry ≡ none
      → goes_on rb name vmsize sync_distance fuel v ≡ false
  unfolding goes_on
  stopped v e w = ground (arith, e, w)

  -- The loop ends at the end of the file.
  end_loop :
      (rounds : ℕ) (v : Vars) (c : Config) (live : List Entry)
      → v.iseof ≡ true
      → v.input_entry ≡ none
      → Inv c v.recorded.segments live
      → Records v c live [] (segments_loop rb name vmsize sync_distance fuel (suc rounds) v c)
  unfolding segments_loop status total
  end_loop rounds v c live e w inv = (
    [],
    ended,
    [],
    stops,
    inl e,
    subst (λ n. Inv ended n (live ++ [])) {x = v.recorded.segments} (omega arith)
        (subst (Inv ended v.recorded.segments) (sym (append-nil live))
          (logged-Inv ended.log c v.recorded.segments live inv)),
    refl,
    tt,
    refl,
    refl,
    omega arith,
    λ v. refl,
  )
    where
      ended : Config
      ended = record c { log = c.log ++ put_char end_mark }

      stops :
          segments_loop rb name vmsize sync_distance fuel (suc rounds) v c
          ≡ ok (v.recorded.result ++ [], ended)
      stops =
          ap
            (λ b. elim b [
              | true ↦
                  segment_round rb name vmsize sync_distance fuel v c >>= λ (y : Vars × Config).
                  segments_loop rb name vmsize sync_distance fuel rounds y.0 y.1
              | false ↦ write_log (put_char end_mark) c >>= λ c'. ok (v.recorded.result, c')
            ])
            (stopped v e w)
          ∙ ap (λ (m : Result Config). m >>= λ c'. ok (v.recorded.result, c'))
              (write_log_lem (put_char end_mark) c inv.open_log)
          ∙ ap (λ l. ok (l, ended)) (sym (append-nil v.recorded.result))

  fits : (l : List (Word × ℕ)) → AreWords l → All IsOccurrence l × All (FitsAlone vmsize) l
  fits l h =
      (All-mono _ IsOccurrence l (λ w x. x.0) h, All-mono _ (FitsAlone vmsize) l (λ w x. x.1) h)

  -- A round before the end of the file.
  round-Step :
      (input_entry : Option (Word × ℕ)) (iseof : Bool) (offset : ℕ) (r : Reader) (pos : ℕ)
      (s : List ℕ) (rest : List (Word × ℕ))
      → length (waiting input_entry ++ rest) < fuel
      → length s < fuel
      → AreWords (waiting input_entry ++ rest)
      → iseof ≡ false
      → StandsAt input_entry iseof offset r pos s rest
      → Step rb name vmsize sync_distance fuel
          (length s)
          (waiting input_entry ++ rest)
          (filling rb name vmsize sync_distance fuel input_entry iseof offset r)
  round-Step o true offset r pos s rest h k a e st = absurd (cc)
  round-Step o false offset r pos s rest h k a e (inl st) = absurd (cc)
  round-Step none false offset r pos s rest h k a e (inr (inl (_, _, start, text, words))) =
      let (occurrences, alone) = fits rest a in
      read-Step rb name vmsize sync_distance fuel offset r pos s rest h k occurrences alone start
        words text
  round-Step none false offset r pos s rest h k a e (inr (inr st)) = absurd (cc)
  round-Step (some word) false offset r pos s rest h k a e (inr (inl st)) = absurd (cc)
  round-Step (some word) false offset r pos s rest h k a e (inr (inr (_, _, _, text, words))) =
      waited-Step rb name vmsize sync_distance fuel word.0 word.1 offset r pos s rest (omega arith)
        k (fits (word ∷ rest) a).0 a.0.1 words text

  goes : (v : Vars) → v.iseof ≡ false → goes_on rb name vmsize sync_distance fuel v ≡ true
  unfolding goes_on
  goes v e = ground (arith, e)

  -- A round and what the later rounds record make up what the loop records.
  Records-round :
      (v : Vars) (c : Config) (live : List Entry) (x : Filled rb) (done l : List (Word × ℕ))
      (m : Result (List ProfileSegment × Config))
      → (table_size (pour rb x.dedup) ≤ text_space done)
      → ((w : Word) → status w (pour rb x.dedup) ≡ status w (occurrences done))
      → Records
          (variables_after x v.recorded)
          (after_output v.recorded.segments
            (pour rb x.dedup)
            (segment_entry (segment_of rb x v.recorded))
            c)
          (live ++ (v.recorded.segments, pour rb x.dedup) ∷ [])
          l
          m
      → Records v c live (done ++ l) m
  unfolding total
  Records-round v c live x done l m small says_done
        (added, c', more, runs, filled, inv, ids, chain, closed, logged, little, all) =
      (
        segment_of rb x v.recorded ∷ added,
        c',
        (v.recorded.segments, pour rb x.dedup) ∷ more,
        runs
            ∙ ap (λ u. ok (u, c'))
                (append_assoc v.recorded.result (segment_of rb x v.recorded ∷ []) added),
        inr (λ z. cc),
        subst (λ n. Inv c' n (live ++ (v.recorded.segments, pour rb x.dedup) ∷ more))
            {x = v.recorded.segments + 1 + length added} (omega arith)
            (subst (Inv c' (v.recorded.segments + 1 + length added))
              (append_assoc live ((v.recorded.segments, pour rb x.dedup) ∷ []) more) inv),
        ap (◌∷◌ v.recorded.segments) ids,
        (
          refl,
          refl,
          subst (λ k. Chain k (entry.stop + 1) added) {x = v.recorded.segments + 1} (omega arith)
              (Chain-same _ x.prevoff (entry.stop + 1) added (omega arith) chain),
        ),
        closed ∙ after_output-ilog v.recorded.segments _ (segment_entry entry) c,
        logged
            ∙ ap (λ u. u ++ (entries added ++ put_char end_mark))
                (after_output-log v.recorded.segments _ (segment_entry entry) c)
            ∙ append_assoc c.log (segment_entry entry) (entries added ++ put_char end_mark)
            ∙ ap (◌++◌ c.log)
                (sym (append_assoc (segment_entry entry) (entries added) (put_char end_mark))),
        omega (arith, small, little, text_space-append done l),
        λ w. ap₂ ◌⊕◌ (says_done w) (all w) ∙ sym (occurrences-append done l w),
      )
    where
      entry : ProfileSegment
      entry = segment_of rb x v.recorded

  at_eof :
      (v : Vars) (pos : ℕ) (s : List ℕ) (rest : List (Word × ℕ))
      → v.iseof ≡ true
      → Stands v pos s rest
      → (v.input_entry ≡ none) × (rest ≡ [])
  at_eof v pos s rest e (inl (_, w, z)) = (w, z)
  at_eof v pos s rest e (inr (inl (f, _, _, _, _))) = absurd (cc)
  at_eof v pos s rest e (inr (inr (word, f, _, _, _))) = absurd (cc)

  -- The loop from any of its rounds on. A round is for a word at least, and two are for the end of the file.
  pub segments_loop-Records :
      (rounds : ℕ) (v : Vars) (c : Config) (live : List Entry) (pos : ℕ) (s : List ℕ)
      (rest : List (Word × ℕ))
      → ((v.iseof ≡ true) × (0 < rounds)) ⊎ (length (waiting v.input_entry ++ rest) + 1 < rounds)
      → length (waiting v.input_entry ++ rest) < fuel
      → length s < fuel
      → AreWords (waiting v.input_entry ++ rest)
      → Stands v pos s rest
      → Inv c v.recorded.segments live
      → Records v c live
          (waiting v.input_entry ++ rest)
          (segments_loop rb name vmsize sync_distance fuel rounds v c)
  segments_loop-Records zero v c live pos s rest h f k a st inv =
      absurd (elim h [ inl x ↦ omega (arith, x) | inr x ↦ omega (arith, x) ])
  segments_loop-Records (suc rounds) v c live pos s rest h f k a st inv =
      elim (Bool-cases v.iseof) [
        | inl y ↦
            let (w, z) = at_eof v pos s rest y st in
            subst
              (λ l.
                Records v c live l
                  (segments_loop rb name vmsize sync_distance fuel (suc rounds) v c))
              (sym (ap₂ (λ o l. waiting o ++ l) w z)) (end_loop rounds v c live y w inv)
        | inr n ↦
            let (x, pos', s', done, rest', fills, sorted, parts, ends, few, more, says_done) =
              round-Step v.input_entry v.iseof v.recorded.offset v.reader pos s rest f k a n st in
            let l' = waiting x.input_entry ++ rest' in
            let (ascending, storable, worded) = pour-sorted rb x.dedup sorted in
            let size : length done + length l' ≡ length (waiting v.input_entry ++ rest) =
              sym (ap length parts ∙ length-append done l') in
            let c' =
              after_output v.recorded.segments (pour rb x.dedup)
                (segment_entry (segment_of rb x v.recorded)) c in
            subst
              (λ l.
                Records v c live l
                  (segments_loop rb name vmsize sync_distance fuel (suc rounds) v c))
              (sym parts)
              (Records-round v c live x done l' _
                (table-text_space (pour rb x.dedup) done ascending says_done) says_done
                (subst (Records (variables_after x v.recorded) c' _ l')
                  (sym (step_loop rounds v c x (goes v n) inv.open_log fills))
                  (segments_loop-Records rounds (variables_after x v.recorded) c' _ pos' s' rest'
                    (enough v.iseof x.iseof rounds _ done l' n size h more) (omega (arith, size))
                    (omega (arith, few))
                    (All-right (λ w. IsOccurrence w × FitsAlone vmsize w) done l'
                      (subst (All (λ w. IsOccurrence w × FitsAlone vmsize w)) parts a))
                    ends
                    (round-Inv v.recorded.segments (pour rb x.dedup)
                      (segment_entry (segment_of rb x v.recorded)) c live inv
                      (record { storable = storable; ascending = ascending; worded = worded })))))
      ]
