-- ===== src/Append.antt =====
-- include/wio.hpp, include/impl/wiobase.hpp, src/wiobase.cpp: `AppendFile`, in its two forms: a log whose writes
-- reach the disk at `sync` only, and an output with a buffer of `bufsiz` bytes (4096 in the source).
-- What the kernel gives to the writes is part of the state.
pub mod Buffer
pub mod Log
use wdedup.Prelude.{
  ℕ, zero, suc, ◌+◌, ◌-◌, min, List, [], ◌∷◌, ◌++◌, Option, none, some, ltb, ◌==◌, if◌then◌else◌,
  length, take, drop,
}
use wdedup.Errors.{Result, ok, err, stuck, Error, ◌>>=◌}
use wdedup.Serial.{report}

-- What a call of `::write` gives: the number of bytes that it took, or an errno.
pub data WriteResult : Type 0 where
  took : ℕ → WriteResult
  refused : ℕ → WriteResult

-- `AppendFileLog` and `AppendFileBuffer`: the results of the writes to come (after them every write takes
-- all its bytes), the content of the file, `writebuf` as far as it is filled, and `tell`.
pub record AppendFile : Type 0 where
  pub writes : List WriteResult
  pub disk : List ℕ
  pub writebuf : List ℕ
  pub tell : ℕ

-- The constructor, on a file that was opened with O_APPEND.
unfoldable pub open_append : List WriteResult → List ℕ → AppendFile
open_append writes disk = record { writes = writes; disk = disk; writebuf = []; tell = 0 }

module _ (file : Error) where
  base_write_as : List WriteResult → List ℕ → AppendFile → Result AppendFile
  base_write_as [] bytes f = ok (record f { disk = f.disk ++ bytes })
  base_write_as (took n ∷ writes) bytes f =
      ok (record f { writes = writes; disk = f.disk ++ take n bytes })
  base_write_as (refused eno ∷ writes) bytes f = report file eno

  -- `AppendFileBase::write`. A short write is no error to it.
  unfoldable pub base_write : List ℕ → AppendFile → Result AppendFile
  unfolding base_write_as
  base_write bytes f = base_write_as f.writes bytes f

  -- `AppendFileLog::write`.
  unfoldable pub log_write : List ℕ → AppendFile → AppendFile
  log_write bytes f = record f { writebuf = f.writebuf ++ bytes }

  -- `AppendFileLog::sync`, with the errno of `fsync` if that fails.
  unfoldable pub log_sync : Option ℕ → AppendFile → Result AppendFile
  unfolding base_write
  log_sync fsync f = do
    f' ← base_write f.writebuf f
    elim fsync [
      | some eno ↦ report file eno
      | none ↦ ok (record f' { writebuf = []; tell = f'.tell + length f.writebuf })
    ]

  module _ (bufsiz : ℕ) where
    -- The first half of a round of `AppendFileBuffer::write`: a full buffer is written out.
    unfoldable pub flush_full : AppendFile → Result AppendFile
    unfolding base_write
    flush_full f =
        if length f.writebuf == bufsiz
        then (do f' ← base_write f.writebuf f; ok (record f' { writebuf = [] }))
        else ok f

    -- The loop. A round takes a byte at least, so that one round more than bytes is enough.
    unfoldable pub write_loop : ℕ → List ℕ → AppendFile → Result AppendFile
    unfolding flush_full
    write_loop zero bytes f = stuck
    write_loop (suc fuel) [] f = ok f
    write_loop (suc fuel) (b ∷ bytes) f = do
      f' ← flush_full f
      let current = min (bufsiz - length f'.writebuf) (length (b ∷ bytes))
      write_loop fuel (drop current (b ∷ bytes))
          (record f' { writebuf = f'.writebuf ++ take current (b ∷ bytes) })

    -- `AppendFileBuffer::write`.
    unfoldable pub buffer_write : List ℕ → AppendFile → Result AppendFile
    unfolding write_loop
    buffer_write bytes f = do
      f' ← write_loop (length bytes + 1) bytes f
      ok (record f' { tell = f'.tell + length bytes })

    -- `AppendFileBuffer::sync`.
    unfoldable pub buffer_sync : AppendFile → Result AppendFile
    unfolding base_write
    buffer_sync f =
        if ltb 0 (length f.writebuf)
        then (do f' ← base_write f.writebuf f; ok (record f' { writebuf = [] }))
        else ok f
