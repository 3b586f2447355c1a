-- ===== src/SortDedup/Agree.antt =====
-- The two deduplications, by a tree and by sorting.
use wdedup.Prelude.{ℕ, ◌≡◌, sym, subst, ◌∙◌, true, List, [], ◌∷◌, All, arith}
use wdedup.Word.{Word}
use wdedup.Profile.Unique.{IsPlain, ArePlain, Ascending-unique}
use wdedup.Rbtree.{TreeItem, Rbtree}
use wdedup.Dedup.{pour_item, TreeDedup, new_dedup, pour}
use wdedup.Dedup.Items.{table}
use wdedup.Dedup.Refine.{IsOccurrence, pour-table}
use wdedup.Dedup.Pour.{insert_each, insert_each-pour}
use wdedup.SortDedup.{SortDedup, new_sort_dedup, pour_sorted}
use wdedup.SortDedup.Sorting.{Sorter}
use wdedup.SortDedup.Pours.{add_each, add_each-Poured, add_each-pour_sorted}

pour_item-IsPlain : (i : TreeItem) → IsPlain (pour_item i)
unfolding pour_item
pour_item-IsPlain i = ground arith

table-ArePlain : (l : List TreeItem) → ArePlain (table l)
table-ArePlain [] = tt
table-ArePlain (i ∷ l) = (pour_item-IsPlain i, table-ArePlain l)

module _ (rb : Rbtree) (sorter : Sorter) where
  open sorter use {sort}

  -- If the same words of the text are inserted into both deduplications, and neither refuses one,
  -- then both pour the same table, whatever tree and whatever sorting they use.
  pub pour-pour_sorted :
      (l : List (Word × ℕ)) (tree_size sort_size : ℕ) (d : TreeDedup rb) (s : SortDedup)
      → All IsOccurrence l
      → insert_each rb l (new_dedup rb tree_size) ≡ (true, d)
      → add_each l (new_sort_dedup sort_size) ≡ (true, s)
      → pour rb d ≡ pour_sorted sort s
  pour-pour_sorted l tree_size sort_size d s a h k =
      let (up, storable, worded, says_tree) = insert_each-pour rb l tree_size d a h in
      let (up', storable', worded', plain, says_items) = add_each-Poured sorter l sort_size s a k in
      let (_, _, _, says_sort) = add_each-pour_sorted sorter l sort_size s a k in
      Ascending-unique (pour rb d) (pour_sorted sort s) up up'
        (subst ArePlain (sym (pour-table rb d)) (table-ArePlain _)) plain
        (λ w. says_tree w ∙ sym (says_sort w))
