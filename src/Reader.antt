-- ===== src/Reader.antt =====
-- src/wprof.cpp, `OriginalFileReader`: the words of the original file, one at a time. Its loops have fuel.
pub mod Spaces
pub mod Words
pub mod Terminate
pub mod Gather
pub mod Text
use wdedup.Prelude.{
  ℕ, zero, suc, ◌+◌, Bool, true, false, not, ◌||◌, List, [], ◌∷◌, ◌++◌, Option, none, some, ltb,
  ◌==◌, if◌then◌else◌, length, set, take,
}
use wdedup.Errors.{Result, ok, stuck, Error, ◌>>=◌}
use wdedup.Word.{Word}
use wdedup.File.{SequentialFile, bufferptr, bufferskip}

-- `isWhitespace`.
unfoldable pub is_whitespace : ℕ → Bool
is_whitespace c = c == b' ' || (c == b'\t' || (c == b'\n' || c == b'\r'))

-- The loops over a buffer that look for a byte.
unfoldable pub find_byte : (ℕ → Bool) → List ℕ → Option ℕ
find_byte wanted [] = none
find_byte wanted (b ∷ bytes) =
    let rest = find_byte wanted bytes in
    if wanted b then some 0 else elim rest [ none ↦ none | some i ↦ some (i + 1) ]

-- `bufptr[i] = '\0'`.
unfoldable pub terminate : ℕ → SequentialFile → SequentialFile
terminate i f = record f { readbuf = set f.readbuf (f.readoff + i) 0 }

-- `OriginalFileReader` with the file that it reads. The cache is part of the words that it gives.
pub record Reader : Type 0 where
  pub file : SequentialFile
  pub prevskip : ℕ

module _ (name : Error) where
  -- A round of `eliminateWhitespace`, by the place of the first other byte in the buffer; `more` is what
  -- the later rounds give.
  unfoldable pub eliminate_at :
      List ℕ
      → Option ℕ
      → SequentialFile
      → (SequentialFile → Result SequentialFile)
      → Result SequentialFile
  unfolding bufferskip
  eliminate_at bufptr (some i) f more = if ltb 0 i then bufferskip name i f else ok f
  eliminate_at bufptr none f more = do f' ← bufferskip name (length bufptr) f; more f'

  -- `eliminateWhitespace`.
  unfoldable pub eliminate : ℕ → SequentialFile → Result SequentialFile
  unfolding bufferptr find_byte eliminate_at
  eliminate zero f = stuck
  eliminate (suc fuel) f = if f.eof then ok f else (do
    bufptr ← bufferptr name f
    eliminate_at bufptr (find_byte (λ c. not (is_whitespace c)) bufptr) f (λ f'. eliminate fuel f'))

  -- The end of a word in the buffer of a later round, or one more round.
  unfoldable pub gather_at :
      Word
      → List ℕ
      → Option ℕ
      → SequentialFile
      → Result (Word × SequentialFile)
      → Result (Word × SequentialFile)
  unfolding bufferskip terminate
  gather_at cache bufptr (some i) f more = do
    f' ← bufferskip name (i + 1) (terminate i f)
    ok (cache ++ take i bufptr, f')
  gather_at cache bufptr none f more = more

  -- The loop of `readString` for a word that is longer than the buffer.
  unfoldable pub gather : ℕ → Word → List ℕ → SequentialFile → Result (Word × SequentialFile)
  unfolding bufferptr find_byte gather_at
  gather zero cache bufptr f = stuck
  gather (suc fuel) cache bufptr f = do
    f' ← bufferskip name (length bufptr) f
    if f'.eof then ok (cache ++ bufptr, f') else (do
      next ← bufferptr name f'
      gather_at (cache ++ bufptr) next (find_byte is_whitespace next) f'
          (gather fuel (cache ++ bufptr) next f'))

  -- A word that starts in the buffer.
  unfoldable pub word_at : ℕ → List ℕ → Option ℕ → SequentialFile → Result (Word × Reader)
  unfolding terminate gather
  word_at fuel bufptr (some i) f =
      ok (take i bufptr, record { file = terminate i f; prevskip = i + 1 })
  word_at fuel bufptr none f = do
    (word, f') ← gather fuel [] bufptr f
    ok (word, record { file = f'; prevskip = 0 })

  -- The skip of the last word, at the start of `readString`.
  unfoldable pub skip_word : Reader → Result SequentialFile
  unfolding bufferskip
  skip_word r = if ltb 0 r.prevskip then bufferskip name r.prevskip r.file else ok r.file

  -- The part of `readString` behind the whitespace.
  unfoldable pub word_or_end : ℕ → Reader → SequentialFile → Result (Option (Word × ℕ) × Reader)
  unfolding bufferptr find_byte word_at
  word_or_end fuel r f = if f.eof then ok (none, record r { file = f }) else (do
    bufptr ← bufferptr name f
    (word, r') ← word_at fuel bufptr (find_byte is_whitespace bufptr) f
    ok (some (word, f.tell), r'))

  -- `readString`: the word and its offset, or nothing at the end of the file.
  unfoldable pub read_word : ℕ → Reader → Result (Option (Word × ℕ) × Reader)
  unfolding skip_word eliminate word_or_end
  read_word fuel r = do f0 ← skip_word r; f ← eliminate fuel f0; word_or_end fuel r f
