-- ===== src/Segments/Text.antt =====
-- `wprof` on a fresh working directory: what the profiles say together of the words of the file.
use wdedup.Prelude.{
  ℕ, ◌+◌, ◌≤◌, ◌≡◌, ◌≢◌, refl, sym, ap, ◌∙◌, subst, false, List, [], ◌++◌, inl, inr, none, some,
  if◌then◌else◌, ltb, arith, All, All-both, length, map,
}
use wdedup.Errors.{Result, ok, err, Error, eio, ◌>>=◌}
use wdedup.Word.{Word}
use wdedup.Serial.{put_char}
use wdedup.Profile.Status.{status}
use wdedup.Rbtree.{Rbtree}
use wdedup.Dedup.Refine.{IsOccurrence}
use wdedup.Dedup.Pour.{occurrences}
use wdedup.File.{ReadResult, open_file}
use wdedup.File.Stream.{bytes_of, AreChunks, open_file-Reads}
use wdedup.Reader.Text.{InText}
use wdedup.Config.{Config, recovery_done}
use wdedup.Plan.{ProfileSegment}
use wdedup.Plan.Valid.{segment_id}
use wdedup.Merge.Rounds.{Entry, Inv, total, space}
use wdedup.Segments.Space.{text_space}
use wdedup.Profiling.Fill.{WordsOf}
use wdedup.Profiling.Text.{IsPlainText, words_lem}
use wdedup.Segments.{
  regular, end_mark, nothing_recorded, segments_loop, wprof, after_recovery, profile_original,
  recover, resumed, Variables,
}
use wdedup.Segments.Step.{FitsAlone}
use wdedup.Segments.Loop.{entries, Chain, segments_loop-Records}

-- A reader of a file that was just opened stands before its bytes.
pub opened-InText :
    (offset : ℕ) (reads : List ReadResult)
    → AreChunks reads
    → InText (record { file = open_file offset reads; prevskip = 0 }) offset (bytes_of reads)
opened-InText offset reads c =
    let r = open_file-Reads offset reads c in
    record {
      origin = offset;
      stream = bytes_of reads;
      reads = r;
      within = omega arith;
      place = omega arith;
      left_over = r.at.left_over;
      open_or_done = inl refl;
    }

-- What a run from the start leaves for the words `l`: at least one segment; they are numbered from 0 and
-- follow on each other, and are logged in their order; every one has a profile that the merge
-- stage can start from; and together these say of every word what its occurrences say, and take
-- no more bytes than the words with ten bytes for each.
abbrev pub Profiled : Config → List (Word × ℕ) → Result (List ProfileSegment × Config) → Type 0
Profiled c l m =
    (segments : List ProfileSegment) × (c' : Config) × (live : List Entry) × (m ≡ ok (segments, c'))
    × (segments ≢ [])
    × Inv c' (length segments) live
    × (map (λ (e : Entry). e.0) live ≡ map segment_id segments)
    × Chain 0 0 segments
    × (c'.ilog ≡ c.ilog)
    × (c'.log ≡ c.log ++ (entries segments ++ put_char end_mark))
    × (space live ≤ text_space l)
    × ((w : Word) → total w live ≡ status w (occurrences l))

module _ (rb : Rbtree) (name : Error) (vmsize sync_distance : ℕ) where
  abbrev start : (fuel : ℕ) → List ReadResult → Variables rb name vmsize sync_distance fuel
  start fuel reads = record {
    recorded = record { result = []; segments = 0; offset = 0 };
    reader = record { file = open_file 0 reads; prevskip = 0 };
    input_entry = none;
    iseof = false;
  }

  open_already : (c : Config) → c.ilog ≡ none → recovery_done c ≡ c
  unfolding recovery_done
  open_already c i = ground (arith, i)

  opened :
      (fuel size : ℕ) (reads : ℕ → List ReadResult) (c : Config)
      → after_recovery rb name vmsize sync_distance fuel
          (regular size reads)
          (resumed nothing_recorded c)
        ≡ segments_loop rb name vmsize sync_distance fuel fuel
            (start fuel (reads 0))
            (recovery_done c)
  unfolding after_recovery profile_original nothing_recorded
  opened fuel size reads c =
      ap
        (λ b.
          if b
          then err (record name { eno = eio })
          else segments_loop rb name vmsize sync_distance fuel fuel (start fuel (reads 0))
              (recovery_done c))
        {x = ltb size 0} {y = false} (ground arith)

  wprof_start :
      (fuel size : ℕ) (reads : ℕ → List ReadResult) (c : Config)
      → c.ilog ≡ none
      → wprof rb name vmsize sync_distance fuel (regular size reads) c
        ≡ segments_loop rb name vmsize sync_distance fuel fuel (start fuel (reads 0)) c
  unfolding wprof
  wprof_start fuel size reads c i =
      ap
        (λ o. elim o [
          | none ↦
              after_recovery rb name vmsize sync_distance fuel (regular size reads)
                (resumed nothing_recorded c)
          | some s ↦
              recover (length s + 1) nothing_recorded s c
              >>= after_recovery rb name vmsize sync_distance fuel (regular size reads)
        ])
        i
      ∙ opened fuel size reads c
      ∙ ap (λ d. segments_loop rb name vmsize sync_distance fuel fuel (start fuel (reads 0)) d)
          (open_already c i)

  -- A run from the start with an open log and no profiles, on a regular file whose reads give bytes until
  -- it ends, none of them the terminator, and whose words fit one by one into the working
  -- memory, with two rounds more than the file has bytes: it returns; the segments are numbered
  -- from 0, follow on each other from offset 0 and are logged in their order; each has its
  -- profile, and what these say together of any word is what its occurrences in the file say;
  -- together they take no more bytes than the words of the file with ten bytes for each.
  pub wprof-Profiled :
      (size : ℕ) (reads : ℕ → List ReadResult) (c : Config) (l : List (Word × ℕ))
      → AreChunks (reads 0)
      → IsPlainText 0 (bytes_of (reads 0))
      → WordsOf 0 (bytes_of (reads 0)) l
      → All (FitsAlone vmsize) l
      → c.ilog ≡ none
      → Inv c 0 []
      → Profiled c l (
          wprof rb name vmsize sync_distance
            (length (bytes_of (reads 0)) + 2)
            (regular size reads)
            c)
  wprof-Profiled size reads c l chunks plain words fit i inv =
      let s = bytes_of (reads 0) in
      let fuel = length s + 2 in
      let (occurrences, few) = words_lem 0 s l plain words in
      let (segments, c', live, runs, filled, stored, ids, chain, closed, logged, small, all) =
        segments_loop-Records rb name vmsize sync_distance fuel fuel (start fuel (reads 0)) c [] 0 s
          l (inr (omega (arith, few))) (omega (arith, few)) (omega arith)
          (All-both IsOccurrence (FitsAlone vmsize) l occurrences fit)
          (inr (
            inl (
              refl,
              refl,
              sym (open_file-Reads 0 (reads 0) chunks).told,
              opened-InText 0 (reads 0) chunks,
              words,
            )))
          inv in
      (
        segments,
        c',
        live,
        wprof_start fuel size reads c i ∙ runs,
        elim filled [ inl e ↦ absurd (cc) | inr n ↦ n ],
        subst (λ n. Inv c' n live) {x = 0 + length segments} (omega arith) stored,
        ids,
        chain,
        closed,
        logged,
        small,
        all,
      )
