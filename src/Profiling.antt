-- ===== src/Profiling.antt =====
-- src/wprof.cpp, `wprof`: the inner loop, which reads a segment of the original file and deduplicates its words.
pub mod Fill
pub mod Segment
pub mod Text
use wdedup.Prelude.{
  ℕ, ◌^◌, ◌%◌, zero, suc, ◌+◌, ◌-◌, Bool, true, false, ◌&&◌, List, [], ◌∷◌, ◌++◌, Option, none,
  some, ltb, if◌then◌else◌,
}
use wdedup.Errors.{Result, ok, fault, stuck, Error, ◌>>=◌}
use wdedup.Word.{Word}
use wdedup.Serial.{put_char, put_size}
use wdedup.Rbtree.{Rbtree}
use wdedup.Dedup.{TreeDedup, new_dedup, insert_word, pour}
use wdedup.Reader.{Reader, read_word}
use wdedup.Config.{Config, write_log, put_output, remove}
use wdedup.Plan.{ProfileSegment}

module _ (rb : Rbtree) where
  -- The variables of the loop when a segment ends: the word that did not fit is still to be inserted.
  pub record Filled : Type 0 where
    pub dedup : TreeDedup rb
    pub reader : Reader
    pub input_entry : Option (Word × ℕ)
    pub iseof : Bool
    pub prevoff : ℕ

  -- The end of a round: the word that was read is inserted; `more` is what the later rounds give.
  unfoldable pub fill_at :
      Option (Word × ℕ) → ℕ → TreeDedup rb → Reader → (TreeDedup rb → Result Filled) → Result Filled
  fill_at none prevoff d r more =
      ok (record { dedup = d; reader = r; input_entry = none; iseof = true; prevoff = r.file.tell })
  fill_at (some (word, off)) prevoff d r more =
      let (done, d') = insert_word rb word off d in
      if done
      then more d'
      else ok (record {
        dedup = d';
        reader = r;
        input_entry = some (word, off);
        iseof = false;
        prevoff = prevoff;
      })

-- The tree, the name that the original file has in errors, the distance after which a segment ends (0 for
-- none), and the fuel of the reader.
module _ (rb : Rbtree) (name : Error) (sync_distance fuel : ℕ) where
  -- The loop that reads a segment: it ends behind the distance, at a word that does not fit, or at the end of
  -- the file. A round reads a word.
  unfoldable pub fill_segment : ℕ → ℕ → TreeDedup rb → Reader → Result (Filled rb)
  unfolding fill_at
  fill_segment zero offset d r = stuck
  fill_segment (suc rounds) offset d r =
      let prevoff = r.file.tell in
      if ltb 0 sync_distance && ltb sync_distance ((prevoff + 2 ^ 64 - offset) % 2 ^ 64)
      then ok
          (record { dedup = d; reader = r; input_entry = none; iseof = false; prevoff = prevoff })
      else (read_word name fuel r >>= λ (x : Option (Word × ℕ) × Reader).
          fill_at rb x.0 prevoff d x.1 (λ d'. fill_segment rounds offset d' x.1))
