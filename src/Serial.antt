-- ===== src/Serial.antt =====
-- include/wio.hpp, `operator<<` and `operator>>` on streams of bytes: one `char`, one `size_t` (eight
-- bytes, least significant first, as on the machines that the program targets), one string with
-- its terminator. A stream is what is left to read; the files behind it are in File and Append.
pub mod RoundTrip
use wdedup.Prelude.{
  ℕ, zero, suc, ◌+◌, ◌*◌, ◌/◌, ◌%◌, Bool, List, [], ◌∷◌, ◌++◌, ◌==◌, if◌then◌else◌,
}
use wdedup.Errors.{Result, ok, err, Error, eio, ◌>>=◌}
use wdedup.Word.{Word}

-- The bytes of a value of `k` bytes, and back.
abbrev pub le_bytes : ℕ → ℕ → List ℕ
le_bytes zero n = []
le_bytes (suc k) n = n % 256 ∷ le_bytes k (n / 256)

abbrev pub of_le : List ℕ → ℕ
of_le [] = 0
of_le (b ∷ bs) = b + 256 * of_le bs

-- `out << (char) c`, `out << n` for a `size_t`, `out << word`.
unfoldable pub put_char : ℕ → List ℕ
put_char c = c % 256 ∷ []

unfoldable pub put_size : ℕ → List ℕ
put_size n = le_bytes 8 n

unfoldable pub put_string : Word → List ℕ
put_string w = w ++ 0 ∷ []

-- The error that a file of this path and role reports.
abbrev pub report {ℓ} : {A : Type ℓ} → Error → ℕ → Result A
report file e = err (record file { eno = e })

module _ (file : Error) where
  -- `read(buf, n)`: all the bytes, or the error of a premature end of the file.
  unfoldable pub get_bytes : ℕ → List ℕ → Result (List ℕ × List ℕ)
  get_bytes zero s = ok ([], s)
  get_bytes (suc n) [] = report file eio
  get_bytes (suc n) (b ∷ s) = do (bs, r) ← get_bytes n s; ok (b ∷ bs, r)

  -- `in >> c`, `in >> n`.
  unfoldable pub get_char : List ℕ → Result (ℕ × List ℕ)
  get_char [] = report file eio
  get_char (b ∷ s) = ok (b, s)

  unfoldable pub get_size : List ℕ → Result (ℕ × List ℕ)
  unfolding get_bytes
  get_size s = do (bs, r) ← get_bytes 8 s; ok (of_le bs, r)

  -- A string on a stream with no buffer, to compare `operator>>` on a string with.
  unfoldable pub get_string : List ℕ → Result (Word × List ℕ)
  get_string [] = report file eio
  get_string (b ∷ s) =
      let rest = get_string s in if b == 0 then ok ([], s) else (do (w, r) ← rest; ok (b ∷ w, r))
