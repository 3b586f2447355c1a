-- ===== src/Segments.antt =====
-- src/wprof.cpp, `wprof`: the recovery from the log, and the outer loop, which writes a segment in each
-- round. The file is what `stat` and the reads of the kernel say of it.
pub mod Space
pub mod Round
pub mod Step
pub mod Loop
pub mod Replay
pub mod Text
use wdedup.Prelude.{
  ℕ, zero, suc, ◌+◌, ◌-◌, ◌^◌, ◌%◌, Bool, true, false, ◌&&◌, List, [], ◌∷◌, ◌++◌, Option, none,
  some, ltb, ◌==◌, if◌then◌else◌, length,
}
use wdedup.Errors.{Result, ok, err, fault, stuck, Error, eio, eisdir, ◌>>=◌}
use wdedup.Word.{Word, codes}
use wdedup.Serial.{put_char, put_size, get_size}
use wdedup.File.{ReadResult, open_file}
use wdedup.Rbtree.{Rbtree}
use wdedup.Dedup.{TreeDedup, new_dedup, insert_word, pour}
use wdedup.Reader.{Reader}
use wdedup.Profiling.{Filled, fill_segment}
use wdedup.Config.{
  Config, log_file, has_recovery_done, recovery_done, log_corrupt, write_log, put_output, remove,
}
use wdedup.Plan.{ProfileSegment}

-- `WProfLog`.
abbrev pub segment_mark : ℕ
segment_mark = b's'

abbrev pub end_mark : ℕ
end_mark = b'e'

-- The log entry of a segment.
unfoldable pub segment_entry : ProfileSegment → List ℕ
segment_entry s = put_char segment_mark ++ put_size s.start ++ put_size s.stop ++ put_size s.size

-- What the kernel says of the original file: the errno of `stat`, or its kind and size; a regular file
-- gives, from an offset on, the results of the reads to come.
pub data OriginalFile : Type 0 where
  missing : ℕ → OriginalFile
  directory : ℕ → OriginalFile
  special : ℕ → OriginalFile
  regular : ℕ → (ℕ → List ReadResult) → OriginalFile

-- The result of the stage as far as it has come: the segments with their number, and the offset of the
-- segment to come.
pub record Recorded : Type 0 where
  pub result : List ProfileSegment
  pub segments : ℕ
  pub offset : ℕ

unfoldable pub nothing_recorded : Recorded
nothing_recorded = record { result = []; segments = 0; offset = 0 }

-- A segment is placed in the result.
unfoldable pub record_segment : ℕ → ℕ → ℕ → ℕ → Recorded → Recorded
record_segment start stop size offset r = record {
  result = r.result ++ record { id = r.segments; start = start; stop = stop; size = size } ∷ [];
  segments = r.segments + 1;
  offset = offset;
}

-- The entry of a segment that was logged.
unfoldable pub recover_segment : Recorded → List ℕ → Config → Result (Recorded × List ℕ)
unfolding record_segment
recover_segment r s c = do
  (start, s1) ← get_size (log_file c) s
  (stop, s2) ← get_size (log_file c) s1
  (size, s3) ← get_size (log_file c) s2
  if start == r.offset
      then ok (record_segment start stop size ((stop + 1) % 2 ^ 64) r, s3)
      else log_corrupt c

-- How the recovery ends: the stage was finished before, or it goes on from here.
pub data Recovery : Type 0 where
  finished : List ProfileSegment → Config → Recovery
  resumed : Recorded → Config → Recovery

-- The recovery loop. Every entry takes a byte of the log at least.
unfoldable pub recover : ℕ → Recorded → List ℕ → Config → Result Recovery
unfolding recover_segment
recover zero r s c = stuck
recover (suc fuel) r [] c = ok (resumed r (record c { ilog = some [] }))
recover (suc fuel) r (b ∷ s) c = elim (b == end_mark) [
  | true ↦ ok (finished r.result (record c { ilog = some s }))
  | false ↦ elim (b == segment_mark) [
    | true ↦ do (r', s') ← recover_segment r s c; recover fuel r' s' c
    | false ↦ log_corrupt c
  ]
]

module _ (rb : Rbtree) (name : Error) (vmsize sync_distance fuel : ℕ) where
  -- The variables of the outer loop.
  pub record Variables : Type 0 where
    pub recorded : Recorded
    pub reader : Reader
    pub input_entry : Option (Word × ℕ)
    pub iseof : Bool

  -- The start of a round: the word that waits is inserted first. That it is refused is a `std::logic_error`
  -- that nothing catches.
  unfoldable pub start_segment : Option (Word × ℕ) → Result (TreeDedup rb)
  unfolding new_dedup
  start_segment none = ok (new_dedup rb vmsize)
  start_segment (some (word, off)) =
      let (done, d) = insert_word rb word off (new_dedup rb vmsize) in if done then ok d else fault

  -- The end of a round: the segment is written, logged and placed in the result.
  unfoldable pub write_segment : Filled rb → Recorded → Config → Result (Recorded × Config)
  unfolding record_segment
  write_segment x r c = do
    let (size, c1) = put_output r.segments (pour rb x.dedup) (remove r.segments c)
    let stop = (x.prevoff + 2 ^ 64 - 1) % 2 ^ 64
    let segment : ProfileSegment = record {
      id = r.segments;
      start = r.offset;
      stop = stop;
      size = size;
    }
    c2 ← write_log (segment_entry segment) c1
    ok (record_segment r.offset stop size x.prevoff r, c2)

  -- A round of the outer loop. At the end of the file the inner loop does not run, and `prevoff` has no value.
  unfoldable pub segment_round : Variables → Config → Result (Variables × Config)
  unfolding start_segment write_segment
  segment_round v c = do
    d ← start_segment v.input_entry
    x ←
        if v.iseof
        then fault
        else fill_segment rb name sync_distance fuel fuel v.recorded.offset d v.reader
    (r, c') ← write_segment x v.recorded c
    ok (
      record { recorded = r; reader = x.reader; input_entry = x.input_entry; iseof = x.iseof },
      c',
    )

  -- Whether the loop goes on.
  unfoldable pub goes_on : Variables → Bool
  goes_on v = if v.iseof then (elim v.input_entry [ none ↦ false | some w ↦ true ]) else true

  -- The outer loop, and the end of the stage. A round takes a word at least.
  unfoldable pub segments_loop : ℕ → Variables → Config → Result (List ProfileSegment × Config)
  unfolding segment_round goes_on
  segments_loop zero v c = stuck
  segments_loop (suc rounds) v c = elim (goes_on v) [
    | true ↦ do (v', c') ← segment_round v c; segments_loop rounds v' c'
    | false ↦ do c' ← write_log (put_char end_mark) c; ok (v.recorded.result, c')
  ]

  -- `wprof` behind its recovery: the checks of the file, and the loop from the offset on.
  unfoldable pub profile_original :
      OriginalFile → Recorded → Config → Result (List ProfileSegment × Config)
  unfolding segments_loop
  profile_original (missing eno) r c = err (record name { eno = eno })
  profile_original (directory size) r c =
      err (record name { eno = if ltb size r.offset then eio else eisdir })
  profile_original (special size) r c = err (record name { eno = eio })
  profile_original (regular size reads) r c =
      if ltb size r.offset
      then err (record name { eno = eio })
      else segments_loop fuel
          (record {
            recorded = r;
            reader = record { file = open_file r.offset (reads r.offset); prevskip = 0 };
            input_entry = none;
            iseof = false;
          })
          c

  unfoldable pub after_recovery : OriginalFile → Recovery → Result (List ProfileSegment × Config)
  unfolding profile_original
  after_recovery file (finished result c) = ok (result, c)
  after_recovery file (resumed r c) = profile_original file r (recovery_done c)

  -- `wprof`.
  unfoldable pub wprof : OriginalFile → Config → Result (List ProfileSegment × Config)
  unfolding after_recovery recover nothing_recorded
  wprof file c = elim c.ilog [
    | none ↦ after_recovery file (resumed nothing_recorded c)
    | some s ↦ do r ← recover (length s + 1) nothing_recorded s c; after_recovery file r
  ]
