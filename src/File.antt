-- ===== src/File.antt =====
-- include/wio.hpp, include/impl/wiobase.hpp, src/wiobase.cpp: `SequentialFile`, a file that is read through a buffer.
-- The kernel stands for itself: what its reads give is part of the state.
pub mod Stream
pub mod Read
pub mod Text
pub mod Blocks
pub mod Cut
use wdedup.Prelude.{
  ℕ, Option, none, some, zero, suc, ◌+◌, ◌-◌, min, Bool, true, false, List, [], ◌∷◌, ◌++◌, leb,
  ◌==◌, if◌then◌else◌, length, take, drop,
}
use wdedup.Errors.{Result, ok, err, fault, stuck, Error, eio, ◌>>=◌}
use wdedup.Word.{Word, c_str}
use wdedup.Serial.{report, of_le}

-- What a call of `::read` gives: some bytes, none at the end of the file, or an errno.
pub data ReadResult : Type 0 where
  got : List ℕ → ReadResult
  failed : ℕ → ReadResult

-- `SequentialFileBase`: the results of the reads to come (after them the file has ended), the `readlen`
-- bytes that `readbuf` holds, and the fields of the source.
pub record SequentialFile : Type 0 where
  pub reads : List ReadResult
  pub readbuf : List ℕ
  pub readoff : ℕ
  pub filetell : ℕ
  pub tell : ℕ
  pub eof : Bool

-- The buffer is replaced by the bytes of a read.
abbrev pub refilled : List ℕ → List ReadResult → SequentialFile → SequentialFile
refilled bytes reads f = record f {
  reads = reads;
  readbuf = bytes;
  readoff = 0;
  filetell = f.filetell + length f.readbuf;
}

-- The read of `checkeof`. An error is left to the next read.
unfoldable pub check_read : List ReadResult → SequentialFile → Bool × SequentialFile
check_read [] f = (true, f)
check_read (failed eno ∷ reads) f = (false, record f { reads = reads })
check_read (got [] ∷ reads) f = (true, record f { reads = reads })
check_read (got (b ∷ bytes) ∷ reads) f = (false, refilled (b ∷ bytes) reads f)

-- `checkeof`.
unfoldable pub checkeof : SequentialFile → Bool × SequentialFile
unfolding check_read
checkeof f = if f.readoff == length f.readbuf then check_read f.reads f else (false, f)

-- The end of `read` and of `bufferskip`: `tell` and `eof` are set.
unfoldable pub settle : SequentialFile → SequentialFile
unfolding checkeof
settle f =
    let (eof, f') = checkeof (record f { tell = f.filetell + f.readoff }) in record f' { eof = eof }

-- The constructor, on a file that could be opened, with the reads that it will give from `seekset` on.
unfoldable pub open_file : ℕ → List ReadResult → SequentialFile
unfolding settle
open_file seekset reads = settle (record {
  reads = reads;
  readbuf = [];
  readoff = 0;
  filetell = seekset;
  tell = seekset;
  eof = false;
})

-- `bufsiz`.
abbrev pub buffer_size : ℕ
buffer_size = 4096

-- What the reads of a regular file with these bytes give: whole buffers, then what is left.
abbrev pub reads_within : ℕ → List ℕ → List ReadResult
reads_within zero bytes = []
reads_within (suc fuel) [] = []
reads_within (suc fuel) (b ∷ bytes) =
    got (take buffer_size (b ∷ bytes)) ∷ reads_within fuel (drop buffer_size (b ∷ bytes))

unfoldable pub reads_of : List ℕ → List ReadResult
reads_of bytes = reads_within (length bytes) bytes

-- The search for a terminator in the buffer.
unfoldable pub find_null : List ℕ → Option ℕ
find_null [] = none
find_null (b ∷ bytes) =
    let rest = find_null bytes in
    if b == 0 then some 0 else elim rest [ none ↦ none | some i ↦ some (i + 1) ]

module _ (file : Error) where
  -- The first half of a round of `read`: an empty buffer is filled.
  refill_read : List ReadResult → SequentialFile → Result SequentialFile
  refill_read [] f = report file eio
  refill_read (failed eno ∷ reads) f = report file eno
  refill_read (got [] ∷ reads) f = report file eio
  refill_read (got (b ∷ bytes) ∷ reads) f = ok (refilled (b ∷ bytes) reads f)

  unfoldable pub refill : SequentialFile → Result SequentialFile
  unfolding refill_read
  refill f = if f.readoff == length f.readbuf then refill_read f.reads f else ok f

  -- The loop of `read`. A round takes a byte at least, so that one round more than bytes is enough.
  unfoldable pub read_loop : ℕ → ℕ → SequentialFile → Result (List ℕ × SequentialFile)
  unfolding refill
  read_loop zero size f = stuck
  read_loop (suc fuel) zero f = ok ([], f)
  read_loop (suc fuel) (suc size) f = do
    f' ← refill f
    let current = min (length f'.readbuf - f'.readoff) (suc size)
    (bytes, f'') ←
        read_loop fuel (suc size - current) (record f' { readoff = f'.readoff + current })
    ok (take current (drop f'.readoff f'.readbuf) ++ bytes, f'')

  -- `read`.
  unfoldable pub read : ℕ → SequentialFile → Result (List ℕ × SequentialFile)
  unfolding read_loop settle
  read size f = do (bytes, f') ← read_loop (size + 1) size f; ok (bytes, settle f')

  -- `bufferptr`.
  unfoldable pub bufferptr : SequentialFile → Result (List ℕ)
  bufferptr f = if f.eof then report file eio else ok (drop f.readoff f.readbuf)

  -- `bufferskip`, with its assertion.
  unfoldable pub bufferskip : ℕ → SequentialFile → Result SequentialFile
  unfolding settle
  bufferskip size f =
      if f.eof
      then report file eio
      else if leb (f.readoff + size) (length f.readbuf)
      then ok (settle (record f { readoff = f.readoff + size }))
      else fault

  -- `operator>>` on a string, by the place of the terminator in the buffer. When the buffer ends before
  -- the string, it is copied into `strbld`, which is empty then and was not resized: a write out
  -- of bounds.
  unfoldable pub string_at : List ℕ → Option ℕ → SequentialFile → Result (Word × SequentialFile)
  unfolding bufferskip
  string_at bufptr (some i) f = do f' ← bufferskip (i + 1) f; ok (c_str bufptr, f')
  string_at bufptr none f = fault

  unfoldable pub read_string : SequentialFile → Result (Word × SequentialFile)
  unfolding bufferptr find_null string_at
  read_string f = do bufptr ← bufferptr f; string_at bufptr (find_null bufptr) f

  -- `operator>>` on a `char` and on a `size_t`.
  unfoldable pub read_char : SequentialFile → Result (ℕ × SequentialFile)
  unfolding read
  read_char f = do (bytes, f') ← read 1 f; ok (of_le bytes, f')

  unfoldable pub read_size : SequentialFile → Result (ℕ × SequentialFile)
  unfolding read
  read_size f = do (bytes, f') ← read 8 f; ok (of_le bytes, f')
