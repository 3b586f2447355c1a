-- ===== src/SortDedup/Sorting.antt =====
-- src/wsortdedup.cpp: what `std::sort` promises for the items of the deduplication.
use wdedup.Prelude.{◌≡◌, refl, ap, ◌∙◌, List, [], ◌∷◌, All, Pick, here, there}
use wdedup.Word.{Word}
use wdedup.Profile.{single_item}
use wdedup.Profile.Status.{◌⊕◌, status, says, ⊕_swap}
use wdedup.Bloom.{reconstruct}
use wdedup.SortDedup.{SortItem}
use wdedup.SortDedup.Scan.{HasBloom, AreOrdered, singles}

-- The second list has the items of the first, in some order.
pub data IsPermutation : List SortItem → List SortItem → Type 0 where
  no_items : IsPermutation [] []
  next_item :
      {i : SortItem} {l r s : List SortItem}
      → Pick i l r
      → IsPermutation r s
      → IsPermutation l (i ∷ s)

abbrev pub InOrder : List SortItem → Type 0
InOrder [] = Unit {0}
InOrder (i ∷ l) = AreOrdered i l

-- `std::sort`, for items that are blooms of words, of which `<` is an order.
pub record Sorter : Type 0 where
  pub sort : List SortItem → List SortItem
  pub sort-IsPermutation : (l : List SortItem) → IsPermutation l (sort l)
  pub sort-InOrder : (l : List SortItem) → All HasBloom l → InOrder (sort l)

All-Pick :
    (P : SortItem → Type 0) {i : SortItem} {l r : List SortItem}
    → Pick i l r
    → All P l
    → P i × All P r
All-Pick P here (h, hs) = (h, hs)
All-Pick P (there p) (h, hs) = let (b, bs) = All-Pick P p hs in (b, (h, bs))

pub All-IsPermutation :
    (P : SortItem → Type 0) {l s : List SortItem} → IsPermutation l s → All P l → All P s
All-IsPermutation P no_items h = tt
All-IsPermutation P (next_item p q) h =
    let (b, bs) = All-Pick P p h in (b, All-IsPermutation P q bs)

status-Pick :
    (w : Word) {i : SortItem} {l r : List SortItem}
    → Pick i l r
    → status w (singles l)
      ≡ says w (single_item (reconstruct i.bloom) i.occur) ⊕ status w (singles r)
unfolding status
status-Pick w here = refl
status-Pick w (there {x = i} {y = j} {r = r} p) =
    ap (◌⊕◌ (says w (single_item (reconstruct j.bloom) j.occur))) (status-Pick w p)
    ∙ ⊕_swap (says w (single_item (reconstruct j.bloom) j.occur))
        (says w (single_item (reconstruct i.bloom) i.occur)) (status w (singles r))

pub status-IsPermutation :
    (w : Word) {l s : List SortItem}
    → IsPermutation l s
    → status w (singles l) ≡ status w (singles s)
unfolding status
status-IsPermutation w no_items = refl
status-IsPermutation w (next_item {i = i} p q) =
    status-Pick w p
    ∙ ap (◌⊕◌ (says w (single_item (reconstruct i.bloom) i.occur))) (status-IsPermutation w q)
