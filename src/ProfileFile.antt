-- ===== src/ProfileFile.antt =====
-- include/impl/wpflsimple.hpp, src/wpflsimple.cpp: profiles as bytes.
pub mod Stale
pub mod Fill
pub mod RoundTrip
pub mod Size
use wdedup.Prelude.{
  ℕ, zero, suc, ◌+◌, Bool, true, false, not, List, [], ◌∷◌, ◌++◌, ◌==◌, if◌then◌else◌, length,
}
use wdedup.Errors.{Result, ok, err, stuck, Error, ◌>>=◌}
use wdedup.Word.{Word}
use wdedup.Serial.{put_char, put_size, put_string}
use wdedup.File.{SequentialFile, open_file, reads_of, read_string, read_char, read_size}
use wdedup.Profile.{ProfileItem, Profile, repeated_item}

-- `ProfileOutputSimple::push`: the bytes that an item adds to the output.
unfoldable pub item_bytes : ProfileItem → List ℕ
item_bytes i =
    put_string i.word ++ (if i.repeated then put_char 1 else put_char 0 ++ put_size i.occur)

-- The bytes of a table pushed item by item.
unfoldable pub encode : Profile → List ℕ
unfolding item_bytes
encode [] = []
encode (i ∷ p) = item_bytes i ++ encode p

-- `ProfileInputSimple`: the file, the item that was read ahead, and whether there is none.
pub record ProfileInput : Type 0 where
  pub input : SequentialFile
  pub head : ProfileItem
  pub is_empty : Bool

module _ (file : Error) where
  -- The fields of the item after its word. A repeated item leaves `occur` as it was.
  fill_occur : Word → ℕ → ℕ → SequentialFile → Result ProfileInput
  fill_occur word repeated occur f =
      if not (repeated == 0)
      then ok (record {
        input = f;
        head = record { word = word; repeated = true; occur = occur };
        is_empty = false;
      })
      else (do
        (off, f') ← read_size file f
        ok (record {
          input = f';
          head = record { word = word; repeated = false; occur = off };
          is_empty = false;
        }))

  -- `popFill`.
  unfoldable pub pop_fill : ProfileInput → Result ProfileInput
  unfolding fill_occur
  pop_fill s = if s.input.eof then ok (record s { is_empty = true }) else (do
    (word, f) ← read_string file s.input
    (repeated, f') ← read_char file f
    fill_occur word repeated s.head.occur f')

  -- `ProfileInputSimple::ProfileInputSimple` on a regular file with these bytes.
  unfoldable pub open_bytes : List ℕ → Result ProfileInput
  unfolding pop_fill open_file reads_of
  open_bytes bytes =
      pop_fill
        (record { input = open_file 0 (reads_of bytes); head = repeated_item []; is_empty = true })

  -- `ProfileInputSimple::pop`: the word is moved out of the head before the next one is read.
  unfoldable pub pop_item : ProfileInput → Result (ProfileItem × ProfileInput)
  unfolding pop_fill
  pop_item s = do s' ← pop_fill (record s { head = record s.head { word = [] } }); ok (s.head, s')

  -- A reader that pops until `empty`, as the loops over an open profile do.
  unfoldable pub pop_all : ℕ → ProfileInput → Result Profile
  unfolding pop_item
  pop_all zero s = stuck
  pop_all (suc fuel) s = elim s.is_empty [
    | true ↦ ok []
    | false ↦ do (i, s') ← pop_item s; p ← pop_all fuel s'; ok (i ∷ p)
  ]

  -- The table that a file with these bytes delivers. Each item takes a byte at least.
  unfoldable pub read_table : List ℕ → Result Profile
  unfolding open_bytes pop_all
  read_table bytes = do s ← open_bytes bytes; pop_all (length bytes + 1) s
