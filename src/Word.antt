-- ===== src/Word.antt =====
-- The words of the program: `std::string` values as lists of byte values, and the comparison
-- operators of `std::string`, which the standard library defines on unsigned characters.
pub mod Order
use Prim.Native.Char.{code}
use Prim.Native.String.{String}
use wdedup.Prelude.{
  zero, suc, ◌+◌, ◌/◌, ◌%◌, ◌++◌, ℕ, Bool, true, false, List, [], ◌∷◌, ltb, ◌==◌, ◌≢◌, ◌<◌,
  if◌then◌else◌, ◌&&◌,
}

-- The bytes of a string, first byte first.
abbrev pub Word : Type 0
Word = List ℕ

-- `a < b` on `std::string`: the first difference decides, and a proper prefix comes first.
unfoldable pub word_lt : Word → Word → Bool
word_lt a [] = false
word_lt [] (y ∷ b) = true
word_lt (x ∷ a) (y ∷ b) = if ltb x y then true else if ltb y x then false else word_lt a b

-- `a == b` on `std::string`.
unfoldable pub word_eq : Word → Word → Bool
word_eq [] [] = true
word_eq [] (y ∷ b) = false
word_eq (x ∷ a) [] = false
word_eq (x ∷ a) (y ∷ b) = x == y && word_eq a b

-- The C string at the start of some bytes.
unfoldable pub c_str : Word → Word
c_str [] = []
c_str (b ∷ w) = if b == 0 then [] else b ∷ c_str w

-- No byte is the terminator of a C string.
abbrev pub NoNull : Word → Type 0
NoNull [] = Unit {0}
NoNull (b ∷ w) = (b ≢ 0) × NoNull w

-- Every element is the value of a byte.
abbrev pub AreBytes : Word → Type 0
AreBytes [] = Unit {0}
AreBytes (b ∷ w) = (b < 256) × AreBytes w

-- A literal of the source as its bytes.
abbrev pub codes : String → Word
codes String.[] = []
codes (String.◌∷◌ c s) = code c ∷ codes s

-- `std::to_string` of a `size_t`: at most twenty digits.
unfoldable pub decimal : ℕ → ℕ → Word
decimal zero n = []
decimal (suc fuel) n =
    let more = decimal fuel (n / 10) in
    if ltb n 10 then (b'0' + n) ∷ [] else more ++ (b'0' + n % 10) ∷ []

abbrev pub to_string : ℕ → Word
to_string = decimal 20
