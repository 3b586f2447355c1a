-- ===== src/SortDedup/Insertion.antt =====
-- An insertion sort, to run the deduplication by sorting with.
use Prim.Native.Nat.{Ordering}
use wdedup.Prelude.{
  refl, ◌≡◌, sym, ◌∙◌, subst, Bool, true, false, List, [], ◌∷◌, All, here, there, inl, inr,
  Bool-cases, if◌then◌else◌,
}
use wdedup.Word.{word_lt}
use wdedup.Word.Order.{word_lt_asymm}
use wdedup.Bloom.{difference, reconstruct}
use wdedup.Bloom.Order.{word_cmp_lt}
use wdedup.Dedup.Items.{difference_lem}
use wdedup.SortDedup.{SortItem, item_less}
use wdedup.SortDedup.Sorting.{
  IsPermutation, no_items, next_item, InOrder, Sorter, All-IsPermutation,
}
use wdedup.SortDedup.Scan.{HasBloom, AreOrdered}

unfoldable insert_item : SortItem → List SortItem → List SortItem
insert_item i [] = i ∷ []
insert_item i (j ∷ l) = if item_less j i then j ∷ insert_item i l else i ∷ j ∷ l

unfoldable pub insertion_sort : List SortItem → List SortItem
unfolding insert_item
insertion_sort [] = []
insertion_sort (i ∷ l) = insert_item i (insertion_sort l)

IsPermutation-insert :
    (i : SortItem) {l s : List SortItem}
    → IsPermutation l s
    → IsPermutation (i ∷ l) (insert_item i s)
unfolding insert_item
IsPermutation-insert i no_items = next_item here no_items
IsPermutation-insert i {l} (next_item {i = j} {s = s} p q) = elim (Bool-cases (item_less j i)) [
  | inl y ↦
      subst (λ (c : Bool). IsPermutation (i ∷ l) (if c then j ∷ insert_item i s else i ∷ j ∷ s))
        (sym y) (next_item (there p) (IsPermutation-insert i q))
  | inr n ↦
      subst (λ (c : Bool). IsPermutation (i ∷ l) (if c then j ∷ insert_item i s else i ∷ j ∷ s))
        (sym n) (next_item here (next_item p q))
]

pub insertion_sort-IsPermutation : (l : List SortItem) → IsPermutation l (insertion_sort l)
unfolding insertion_sort
insertion_sort-IsPermutation [] = no_items
insertion_sort-IsPermutation (i ∷ l) = IsPermutation-insert i (insertion_sort-IsPermutation l)

-- An item that comes before another has the lesser word.
lesser_item :
    (i j : SortItem)
    → HasBloom i
    → HasBloom j
    → item_less i j ≡ true
    → word_lt (reconstruct i.bloom) (reconstruct j.bloom) ≡ true
unfolding item_less
lesser_item i j b c h =
    word_cmp_lt (reconstruct i.bloom) (reconstruct j.bloom)
      (sym (difference_lem i.bloom j.bloom b c) ∙ is_lt (difference i.bloom j.bloom) h)
  where
    is_lt : (o : Ordering) → elim o [ Ordering.lt ↦ true | _ ↦ false ] ≡ true → o ≡ Ordering.lt
    is_lt Ordering.lt h = refl
    is_lt Ordering.eq h = absurd (cc)
    is_lt Ordering.gt h = absurd (cc)

-- Of two items of words at most one comes before the other.
item_less_asymm :
    (i j : SortItem) → HasBloom i → HasBloom j → item_less i j ≡ true → item_less j i ≡ false
item_less_asymm i j b c h = elim (Bool-cases (item_less j i)) [
  | inl y ↦
      let lt = word_lt_asymm (reconstruct i.bloom) (reconstruct j.bloom) (lesser_item i j b c h) in
      let gt = lesser_item j i c b y in absurd (cc)
  | inr n ↦ n
]

AreOrdered-insert :
    (i j : SortItem) (l : List SortItem)
    → HasBloom i
    → All HasBloom l
    → item_less i j ≡ false
    → AreOrdered j l
    → AreOrdered j (insert_item i l)
unfolding insert_item
AreOrdered-insert i j [] b bs h o = (h, tt)
AreOrdered-insert i j (k ∷ l) b (bk, bs) h (o, os) = elim (Bool-cases (item_less k i)) [
  | inl y ↦
      subst (λ (c : Bool). AreOrdered j (if c then k ∷ insert_item i l else i ∷ k ∷ l)) (sym y)
        (o, AreOrdered-insert i k l b bs (item_less_asymm k i bk b y) os)
  | inr n ↦
      subst (λ (c : Bool). AreOrdered j (if c then k ∷ insert_item i l else i ∷ k ∷ l)) (sym n)
        (h, (n, os))
]

InOrder-insert :
    (i : SortItem) (l : List SortItem)
    → HasBloom i
    → All HasBloom l
    → InOrder l
    → InOrder (insert_item i l)
unfolding insert_item
InOrder-insert i [] b bs o = tt
InOrder-insert i (k ∷ l) b (bk, bs) o = elim (Bool-cases (item_less k i)) [
  | inl y ↦
      subst (λ (c : Bool). InOrder (if c then k ∷ insert_item i l else i ∷ k ∷ l)) (sym y)
        (AreOrdered-insert i k l b bs (item_less_asymm k i bk b y) o)
  | inr n ↦
      subst (λ (c : Bool). InOrder (if c then k ∷ insert_item i l else i ∷ k ∷ l)) (sym n) (n, o)
]

pub insertion_sort-InOrder : (l : List SortItem) → All HasBloom l → InOrder (insertion_sort l)
unfolding insertion_sort
insertion_sort-InOrder [] bs = tt
insertion_sort-InOrder (i ∷ l) (b, bs) =
    InOrder-insert i (insertion_sort l) b
      (All-IsPermutation HasBloom (insertion_sort-IsPermutation l) bs) (insertion_sort-InOrder l bs)

abbrev pub insertion_sorter : Sorter
insertion_sorter = record {
  sort = insertion_sort;
  sort-IsPermutation = insertion_sort-IsPermutation;
  sort-InOrder = insertion_sort-InOrder;
}
