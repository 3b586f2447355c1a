-- ===== src/Serial/RoundTrip.antt =====
-- What was written is read back.
use wdedup.Prelude.{ℕ, zero, suc, ◌/◌, ◌^◌, ◌<◌, ◌≡◌, refl, ap, ◌∙◌, List, [], ◌∷◌, ◌++◌, arith}
use native.Mathlib.Nat.{pow-suc}
use wdedup.Errors.{Result, ok, Error, ◌>>=◌}
use wdedup.Word.{Word, NoNull}
use wdedup.Serial.{
  le_bytes, of_le, put_char, put_size, put_string, get_bytes, get_char, get_size, get_string,
}

pub of_le-le_bytes : (k n : ℕ) → n < 256 ^ k → of_le (le_bytes k n) ≡ n
of_le-le_bytes zero n h = omega arith
of_le-le_bytes (suc k) n h =
    omega (arith, of_le-le_bytes k (n / 256) (omega (arith, pow-suc 256 k)))

module _ (file : Error) where
  pub get_bytes-le_bytes :
      (k n : ℕ) (s : List ℕ) → get_bytes file k (le_bytes k n ++ s) ≡ ok (le_bytes k n, s)
  unfolding get_bytes
  get_bytes-le_bytes zero n s = refl
  get_bytes-le_bytes (suc k) n s = rw (get_bytes-le_bytes k (n / 256) s)

  -- A `char` is read back.
  pub get-put_char : (c : ℕ) (s : List ℕ) → c < 256 → get_char file (put_char c ++ s) ≡ ok (c, s)
  unfolding get_char put_char
  get-put_char c s h = ground arith

  -- Eight bytes are read for a `size_t`, whatever its value.
  pub get_size-put_size :
      (n : ℕ) (s : List ℕ) → get_size file (put_size n ++ s) ≡ ok (of_le (le_bytes 8 n), s)
  unfolding get_size put_size
  get_size-put_size n s = ap decoded (get_bytes-le_bytes 8 n s)
    where
      decoded : Result (List ℕ × List ℕ) → Result (ℕ × List ℕ)
      decoded m = m >>= λ (bs, r). ok (of_le bs, r)

  -- A `size_t` is read back, if it fits its eight bytes.
  pub get-put_size : (n : ℕ) (s : List ℕ) → n < 2 ^ 64 → get_size file (put_size n ++ s) ≡ ok (n, s)
  get-put_size n s h = get_size-put_size n s ∙ ap (λ m. ok (m, s)) (of_le-le_bytes 8 n h)

  -- No byte of the word is the terminator.
  pub get-put_string :
      (w : Word) (s : List ℕ) → NoNull w → get_string file (put_string w ++ s) ≡ ok (w, s)
  unfolding get_string put_string
  get-put_string [] s h = refl
  get-put_string (b ∷ w) s h = ground (arith, get-put_string w s h.1)
