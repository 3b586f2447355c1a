-- ===== src/Segments/Space.antt =====
-- How many bytes the profiles of a text take: no more than its words with ten bytes for each.
use wdedup.Prelude.{
  ℕ, ◌+◌, ◌≤◌, ◌≡◌, ◌≢◌, refl, sym, ap, subst, ◌∙◌, true, false, List, [], ◌∷◌, ◌++◌, arith, length,
  All, All-mono, Pick, here, there, inl, inr, Bool-cases, if◌then◌else◌, Bool,
}
use wdedup.Word.{Word, word_eq, word_lt}
use wdedup.Word.Order.{word_eq→eq, word_eq_refl, word_lt_irrefl}
use wdedup.Serial.{put_char, put_size}
use wdedup.Profile.{ProfileItem, Profile}
use wdedup.Profile.Status.{Status, absent, once, many, ◌⊕◌, status, says, item_status}
use wdedup.Profile.Ascending.{Above, Ascending}
use wdedup.ProfileFile.{item_bytes, encode}
use wdedup.ProfileFile.Fill.{mark, length-item}
use wdedup.ProfileFile.Size.{table_size, table_size-cons}
use wdedup.Dedup.Pour.{occurrences}

-- The bytes of the words, with ten for each: a terminator, a mark and an offset.
abbrev pub text_space : List (Word × ℕ) → ℕ
text_space [] = 0
text_space ((w, off) ∷ l) = length w + 10 + text_space l

pub text_space-append : (l r : List (Word × ℕ)) → text_space (l ++ r) ≡ text_space l + text_space r
text_space-append [] r = omega arith
text_space-append ((w, off) ∷ l) r = omega (arith, text_space-append l r)

Pick-text_space :
    {w : Word} {off : ℕ} {l r : List (Word × ℕ)}
    → Pick (w, off) l r
    → text_space l ≡ length w + 10 + text_space r
Pick-text_space here = refl
Pick-text_space (there p) = omega (arith, Pick-text_space p)

-- The word is among those of the list.
abbrev HasWord : List (Word × ℕ) → Word → Type 0
HasWord l w = (off : ℕ) × (r : List (Word × ℕ)) × Pick (w, off) l r

other_word :
    {w v : Word} {o off : ℕ} {l r s : List (Word × ℕ)}
    → v ≢ w
    → Pick (w, o) l r
    → Pick (v, off) l s
    → HasWord r v
other_word n here here = absurd (n refl)
other_word {off = off} {s = s} n here (there q) = (off, _, q)
other_word {off = off} n (there p) here = (off, _, here)
other_word n (there p) (there q) = let (o, r, k) = other_word n p q in (o, _, there k)

present_word : (w : Word) (l : List (Word × ℕ)) → status w (occurrences l) ≢ absent → HasWord l w
unfolding status
present_word w [] h = absurd (h refl)
present_word w ((v, off) ∷ l) h = elim (Bool-cases (word_eq v w)) [
  | inl y ↦ subst (HasWord ((v, off) ∷ l)) (word_eq→eq v w y) (off, l, here)
  | inr n ↦
      let (o, r, p) = present_word w l (λ e.
        h (ap (λ (b : Bool). (if b then once off else absent) ⊕ status w (occurrences l)) n ∙ e)) in
      (o, (v, off) ∷ r, there p)
]

right_absent : (s t : Status) → s ⊕ t ≡ absent → t ≡ absent
right_absent absent t e = e
right_absent (once off) absent e = refl
right_absent (once off) (once p) e = absurd (cc)
right_absent (once off) many e = absurd (cc)
right_absent many t e = absurd (cc)

item_present : (i : ProfileItem) (t : Status) → item_status i ⊕ t ≢ absent
item_present i t = by_repeated i.repeated t
  where
    by_repeated : (b : Bool) (t : Status) → (if b then many else once i.occur) ⊕ t ≢ absent
    by_repeated true t e = cc
    by_repeated false absent e = cc
    by_repeated false (once p) e = cc
    by_repeated false many e = cc

items_present : (p : Profile) → All (λ i. status i.word p ≢ absent) p
unfolding status
items_present [] = tt
items_present (i ∷ p) = (
  λ e. item_present i (status i.word p) (
      ap (λ (b : Bool). (if b then item_status i else absent) ⊕ status i.word p)
        (sym (word_eq_refl i.word))
      ∙ e),
  All-mono (λ j. status j.word p ≢ absent) (λ j. status j.word (i ∷ p) ≢ absent) p
      (λ j n e. n (right_absent (says j.word i) (status j.word p) e)) (items_present p),
)

others_kept :
    (w : Word) (p : Profile) {off : ℕ} {l r : List (Word × ℕ)}
    → Pick (w, off) l r
    → Above w p
    → All (λ i. HasWord l i.word) p
    → All (λ i. HasWord r i.word) p
others_kept w [] k a h = tt
others_kept w (i ∷ p) k (lt, a) ((o, s, q), h) = (
  other_word (λ e. true_false (sym lt ∙ ap (word_lt w) e ∙ word_lt_irrefl w)) k q,
  others_kept w p k a h,
)
  where
    true_false : true ≢ false
    true_false e = cc

item_space : (i : ProfileItem) → length (item_bytes i) ≤ length i.word + 10
unfolding put_char put_size
item_space i = omega (arith, length-item i, mark_most i.word i.repeated i.occur)
  where
    mark_most :
        (w : Word) (b : Bool) (off : ℕ)
        → length (mark (record { word = w; repeated = b; occur = off })) ≤ 9
    mark_most w true off = omega arith
    mark_most w false off = omega arith

table_within :
    (p : Profile) (l : List (Word × ℕ))
    → Ascending p
    → All (λ i. HasWord l i.word) p
    → table_size p ≤ text_space l
unfolding encode
table_within [] l a h = omega arith
table_within (i ∷ p) l (above, a) ((off, r, k), h) = omega (
  arith,
  table_size-cons i p,
  item_space i,
  Pick-text_space k,
  table_within p r a (others_kept i.word p k above h),
)

-- A sorted table that says what some words say takes no more bytes than they do.
pub table-text_space :
    (p : Profile) (l : List (Word × ℕ))
    → Ascending p
    → ((w : Word) → status w p ≡ status w (occurrences l))
    → table_size p ≤ text_space l
table-text_space p l a says_all = table_within p l a (
    All-mono (λ i. status i.word p ≢ absent) (λ i. HasWord l i.word) p
      (λ i n. present_word i.word l (λ e. n (says_all i.word ∙ e))) (items_present p))
