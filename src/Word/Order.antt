-- ===== src/Word/Order.antt =====
-- `word_lt` is a strict total order, and `word_eq` decides equality.
use wdedup.Prelude.{◌≡◌, refl, ◌↔◌, true, false, [], ◌∷◌, arith}
use wdedup.Word.{Word, word_lt, word_eq}

pub word_lt_irrefl : (a : Word) → word_lt a a ≡ false
unfolding word_lt
word_lt_irrefl [] = refl
word_lt_irrefl (x ∷ a) = ground (arith, word_lt_irrefl a)

pub word_lt_trans : (a b c : Word) → word_lt a b ≡ true → word_lt b c ≡ true → word_lt a c ≡ true
unfolding word_lt
word_lt_trans a b [] h k = k
word_lt_trans a [] (z ∷ c) h k = ground arith
word_lt_trans [] (y ∷ b) (z ∷ c) h k = refl
word_lt_trans (x ∷ a) (y ∷ b) (z ∷ c) h k = ground (arith, word_lt_trans a b c)

pub word_lt_asymm : (a b : Word) → word_lt a b ≡ true → word_lt b a ≡ false
word_lt_asymm a b h = ground (arith, word_lt_trans a b a h, word_lt_irrefl a)

-- Two words of which neither is the less are one word.
pub word_lt_connex : (a b : Word) → word_lt a b ≡ false → word_lt b a ≡ false → a ≡ b
unfolding word_lt
word_lt_connex [] [] h k = refl
word_lt_connex [] (y ∷ b) h k = ground arith
word_lt_connex (x ∷ a) [] h k = ground arith
word_lt_connex (x ∷ a) (y ∷ b) h k = ground (arith, word_lt_connex a b)

pub word_eq_refl : (a : Word) → word_eq a a ≡ true
unfolding word_eq
word_eq_refl [] = refl
word_eq_refl (x ∷ a) = ground (arith, word_eq_refl a)

pub word_eq→eq : (a b : Word) → word_eq a b ≡ true → a ≡ b
unfolding word_eq
word_eq→eq [] [] h = refl
word_eq→eq [] (y ∷ b) h = ground arith
word_eq→eq (x ∷ a) [] h = ground arith
word_eq→eq (x ∷ a) (y ∷ b) h = ground (arith, word_eq→eq a b)

pub word_eq_iff : (a b : Word) → (word_eq a b ≡ true) ↔ (a ≡ b)
word_eq_iff a b = (word_eq→eq a b, λ e. subst_eq e)
  where
    subst_eq : a ≡ b → word_eq a b ≡ true
    subst_eq e = rw e (word_eq_refl b)

-- A smaller word is another word.
pub word_eq_of_lt : (a b : Word) → word_lt a b ≡ true → word_eq a b ≡ false
word_eq_of_lt a b h = ground (arith, word_eq→eq a b, word_lt_irrefl b)
