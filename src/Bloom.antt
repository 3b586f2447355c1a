-- ===== src/Bloom.antt =====
-- include/wbloom.hpp: a string as a word of eight bytes that compares fast, and a pool for the rest.
-- The pool stands for the bytes that its pointer shows, up to the terminator behind the word.
pub mod Fill
pub mod Order
pub mod Reconstruct
use Prim.Native.Nat.{compare, Ordering}
use wdedup.Prelude.{
  ℕ, zero, suc, ◌+◌, ◌*◌, ◌/◌, ◌%◌, ◌^◌, List, [], ◌∷◌, ◌++◌, Option, none, some, ◌==◌,
  if◌then◌else◌, ltb, length,
}
use wdedup.Word.{c_str, Word}

-- `Bloom`; `none` is the null pointer.
pub record Bloom : Type 0 where
  pub bloom : ℕ
  pub pool : Option Word

-- `(bloom << 8) | (w & 0xff)` in 64 bits: the shift leaves the low bits clear, so that `|` adds.
abbrev pub shift_in : ℕ → ℕ → ℕ
shift_in bloom w = (bloom * 256) % 2 ^ 64 + w % 256

-- The loop of `decompose`, with the rounds that are left: the bloom part, and the bytes that it leaves.
unfoldable pub fill : ℕ → Word → ℕ → ℕ × Word
fill zero word bloom = (bloom, word)
fill (suc k) [] bloom = fill k [] (shift_in bloom 0)
fill (suc k) (w ∷ word) bloom = fill k word (shift_in bloom w)

-- The pointer to the rest, and the size to allocate for it with its terminator.
abbrev pub pool_of : Word → Option Word
pool_of [] = none
pool_of (w ∷ rest) = some (w ∷ rest)

abbrev pub pool_size : Word → ℕ
pool_size [] = 0
pool_size (w ∷ rest) = length (w ∷ rest) + 1

-- `decompose`.
unfoldable pub decompose : Word → Bloom × ℕ
unfolding fill
decompose word =
    let (bloom, rest) = fill 8 word 0 in
    (record { bloom = bloom; pool = pool_of rest }, pool_size rest)

-- The sign of the comparison of two strings, byte by byte as unsigned values.
unfoldable pub word_cmp : Word → Word → Ordering
word_cmp [] [] = Ordering.eq
word_cmp [] (y ∷ b) = Ordering.lt
word_cmp (x ∷ a) [] = Ordering.gt
word_cmp (x ∷ a) (y ∷ b) = elim (compare x y) [
  | Ordering.lt ↦ Ordering.lt
  | Ordering.eq ↦ word_cmp a b
  | Ordering.gt ↦ Ordering.gt
]

-- `strcmp`.
unfoldable pub strcmp : Word → Word → Ordering
unfolding c_str word_cmp
strcmp a b = word_cmp (c_str a) (c_str b)

-- The comparison of the pools in `operator-`.
unfoldable pub pool_difference : Option Word → Option Word → Ordering
unfolding strcmp
pool_difference none none = Ordering.eq
pool_difference none (some q) = Ordering.lt
pool_difference (some p) none = Ordering.gt
pool_difference (some p) (some q) = strcmp p q

-- `operator-`, as its sign.
unfoldable pub difference : Bloom → Bloom → Ordering
unfolding pool_difference
difference a b =
    if a.bloom == b.bloom
    then pool_difference a.pool b.pool
    else if ltb b.bloom a.bloom
    then Ordering.gt
    else Ordering.lt

-- The loop of `reconstruct`: the bytes of the bloom part, filled in from the last to the first.
unfoldable pub unpack : ℕ → ℕ → Word → Word
unpack zero bloom bytes = bytes
unpack (suc k) bloom bytes = unpack k (bloom / 256) (bloom % 256 ∷ bytes)

-- `reconstruct`.
unfoldable pub reconstruct : Bloom → Word
unfolding unpack c_str
reconstruct b = c_str (unpack 8 b.bloom []) ++ (elim b.pool [ none ↦ [] | some p ↦ c_str p ])
