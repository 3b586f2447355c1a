-- ===== src/Bloom/Order.antt =====
-- Bloom-ed strings compare as the strings do.
use Prim.Native.Nat.{Ordering}
use wdedup.Prelude.{
  ℕ, zero, suc, ◌+◌, ◌*◌, ◌^◌, ◌<◌, ◌≡◌, ◌≢◌, refl, sym, ap, ap₂, ◌∙◌, true, [], ◌∷◌, arith, drop,
  ◌==◌, if◌then◌else◌, ltb, dec_lt, ◌⊎◌, inl, inr,
}
use wdedup.Word.{c_str, Word, AreBytes, NoNull, word_lt}
use wdedup.Bloom.{word_cmp, strcmp, pool_of, pool_difference, difference, decompose}
use wdedup.Bloom.Fill.{pad, pad-lt, fill-pad, pow_pos}

pub c_str_whole : (w : Word) → NoNull w → c_str w ≡ w
unfolding c_str
c_str_whole [] h = refl
c_str_whole (b ∷ w) h = ground (arith, c_str_whole w h.1)

-- The comparison of two numbers and, where they agree, of two pools.
difference_of : ℕ → ℕ → Word → Word → Ordering
difference_of m n a b =
    if m == n
    then pool_difference (pool_of a) (pool_of b)
    else if ltb n m
    then Ordering.gt
    else Ordering.lt

difference_lt : (m n : ℕ) (a b : Word) → m < n → difference_of m n a b ≡ Ordering.lt
unfolding difference_of
difference_lt m n a b h = ground arith

difference_gt : (m n : ℕ) (a b : Word) → n < m → difference_of m n a b ≡ Ordering.gt
unfolding difference_of
difference_gt m n a b h = ground arith

difference_shift :
    (m n d : ℕ) (a b : Word) → difference_of (d + m) (d + n) a b ≡ difference_of m n a b
unfolding difference_of
difference_shift m n d a b = ground arith

strcmp_whole : (a b : Word) → NoNull a → NoNull b → strcmp a b ≡ word_cmp a b
unfolding strcmp
strcmp_whole a b h k = ap₂ word_cmp (c_str_whole a h) (c_str_whole b k)

-- The comparison of strings by their heads.
module _ (x y : ℕ) (a b : Word) where
  cmp_lt : x < y → word_cmp (x ∷ a) (y ∷ b) ≡ Ordering.lt
  unfolding word_cmp
  cmp_lt h = ground arith

  cmp_gt : y < x → word_cmp (x ∷ a) (y ∷ b) ≡ Ordering.gt
  unfolding word_cmp
  cmp_gt h = ground arith

  cmp_eq : x ≡ y → word_cmp (x ∷ a) (y ∷ b) ≡ word_cmp a b
  unfolding word_cmp
  cmp_eq h = ground arith

pub lt_cases : (x y : ℕ) → (x < y) ⊎ ((y < x) ⊎ (x ≡ y))
lt_cases x y = elim (dec_lt x y) [
  | yes h ↦ inl h
  | no h ↦ elim (dec_lt y x) [ yes k ↦ inr (inl k) | no k ↦ inr (inr (omega arith)) ]
]

pools : (a b : Word) → NoNull a → NoNull b → pool_difference (pool_of a) (pool_of b) ≡ word_cmp a b
unfolding pool_difference word_cmp
pools [] [] h k = refl
pools [] (y ∷ b) h k = refl
pools (x ∷ a) [] h k = refl
pools (x ∷ a) (y ∷ b) h k = strcmp_whole (x ∷ a) (y ∷ b) h k

below_step : (x y p r s : ℕ) → x < y → r < p → x * p + r < y * p + s
below_step x y p r s h k = grind arith

above_zero : (y p s : ℕ) → y ≢ 0 → 0 < p → 0 < y * p + s
above_zero y p s h k = grind arith

-- Comparing the numbers of `k` bytes and then what is behind them compares the strings.
difference-pad :
    (k : ℕ) (a b : Word)
    → NoNull a
    → AreBytes a
    → NoNull b
    → AreBytes b
    → difference_of (pad k a) (pad k b) (drop k a) (drop k b) ≡ word_cmp a b
unfolding pad
difference-pad zero a b na ba nb bb = unfold difference_of in pools a b na nb
difference-pad (suc k) [] [] na ba nb bb = unfold difference_of pool_difference word_cmp in refl
difference-pad (suc k) [] (y ∷ b) na ba nb bb =
    difference_lt 0 _ [] (drop k b) (above_zero y (256 ^ k) (pad k b) nb.0 (pow_pos k))
    ∙ unfold word_cmp in refl
difference-pad (suc k) (x ∷ a) [] na ba nb bb =
    difference_gt _ 0 (drop k a) [] (above_zero x (256 ^ k) (pad k a) na.0 (pow_pos k))
    ∙ unfold word_cmp in refl
difference-pad (suc k) (x ∷ a) (y ∷ b) na ba nb bb = elim (lt_cases x y) [
  | inl lt ↦
      difference_lt _ _ (drop k a) (drop k b)
        (below_step x y (256 ^ k) (pad k a) (pad k b) lt (pad-lt k a ba.1))
      ∙ sym (cmp_lt x y a b lt)
  | inr (inl gt) ↦
      difference_gt _ _ (drop k a) (drop k b)
        (below_step y x (256 ^ k) (pad k b) (pad k a) gt (pad-lt k b bb.1))
      ∙ sym (cmp_gt x y a b gt)
  | inr (inr e) ↦
      ap (λ z. difference_of (x * 256 ^ k + pad k a) (z * 256 ^ k + pad k b) (drop k a) (drop k b))
        (sym e)
      ∙ difference_shift (pad k a) (pad k b) (x * 256 ^ k) (drop k a) (drop k b)
      ∙ difference-pad k a b na.1 ba.1 nb.1 bb.1
      ∙ sym (cmp_eq x y a b e)
]

-- `operator-` on two decomposed words has the sign of the comparison of the words, if their bytes are
-- bytes and none is the terminator.
pub difference-decompose :
    (a b : Word)
    → NoNull a
    → AreBytes a
    → NoNull b
    → AreBytes b
    → difference (decompose a).0 (decompose b).0 ≡ word_cmp a b
unfolding difference decompose difference_of
difference-decompose a b na ba nb bb =
    ap₂ (λ (u v : ℕ × Word). difference_of u.0 v.0 u.1 v.1) (fill-pad 8 a 0 ba (omega arith))
      (fill-pad 8 b 0 bb (omega arith))
    ∙ difference_shift (pad 8 a) (pad 8 b) (0 * 256 ^ 8) (drop 8 a) (drop 8 b)
    ∙ difference-pad 8 a b na ba nb bb

-- The comparison of strings is an order: it finds the words equal exactly when they are, and the less
-- by `word_lt`.
pub word_cmp_eq : (a b : Word) → word_cmp a b ≡ Ordering.eq → a ≡ b
unfolding word_cmp
word_cmp_eq [] [] h = refl
word_cmp_eq [] (y ∷ b) h = cc
word_cmp_eq (x ∷ a) [] h = cc
word_cmp_eq (x ∷ a) (y ∷ b) h = ground (arith, word_cmp_eq a b)

pub word_cmp_refl : (a : Word) → word_cmp a a ≡ Ordering.eq
unfolding word_cmp
word_cmp_refl [] = refl
word_cmp_refl (x ∷ a) = ground (arith, word_cmp_refl a)

pub word_cmp_lt : (a b : Word) → word_cmp a b ≡ Ordering.lt → word_lt a b ≡ true
unfolding word_cmp word_lt
word_cmp_lt [] [] h = cc
word_cmp_lt [] (y ∷ b) h = refl
word_cmp_lt (x ∷ a) [] h = cc
word_cmp_lt (x ∷ a) (y ∷ b) h = ground (arith, word_cmp_lt a b)

pub word_cmp_gt : (a b : Word) → word_cmp a b ≡ Ordering.gt → word_lt b a ≡ true
unfolding word_cmp word_lt
word_cmp_gt [] [] h = cc
word_cmp_gt [] (y ∷ b) h = cc
word_cmp_gt (x ∷ a) [] h = refl
word_cmp_gt (x ∷ a) (y ∷ b) h = ground (arith, word_cmp_gt a b)
