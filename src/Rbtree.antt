-- ===== src/Rbtree.antt =====
-- The red-black tree of libbsd (`bsd/sys/tree.h`) that include/impl/wtreededup.hpp generates for its items: an
-- interface, since its code is not part of the program.
use Prim.Native.Nat.{Ordering}
use wdedup.Prelude.{ℕ, ◌≡◌, refl, List, [], ◌∷◌, Option, none, some}
use wdedup.Bloom.{Bloom, difference}

-- `TreeDedupItem` without the links of the tree.
pub record TreeItem : Type 0 where
  pub bloom : Bloom
  pub occur : ℕ

-- The search and the insertion in an ordered list, by `TreeDedupItemCmp`.
unfoldable pub find_in : Bloom → List TreeItem → Option TreeItem
find_in b [] = none
find_in b (i ∷ l) = elim (difference b i.bloom) [ Ordering.eq ↦ some i | _ ↦ find_in b l ]

unfoldable pub insert_in : TreeItem → List TreeItem → List TreeItem
insert_in i [] = i ∷ []
insert_in i (j ∷ l) = elim (difference i.bloom j.bloom) [
  | Ordering.lt ↦ i ∷ j ∷ l
  | _ ↦ j ∷ insert_in i l
]

-- `find->occur = 0` through the pointer that the search gave.
unfoldable pub mark_in : Bloom → List TreeItem → List TreeItem
mark_in b [] = []
mark_in b (i ∷ l) = elim (difference b i.bloom) [
  | Ordering.eq ↦ record i { occur = 0 } ∷ l
  | _ ↦ i ∷ mark_in b l
]

-- `RB_INIT`, `RB_FIND`, `RB_INSERT` and the walk from `RB_MIN` by `RB_NEXT`, with what their manual page says:
-- the walk is in the order of the comparison, a search finds the equal item, and a node
-- can be changed in place where the comparison does not look.
pub record Rbtree : Type 1 where
  pub Tree : Type 0
  pub init : Tree
  pub find : Bloom → Tree → Option TreeItem
  pub mark : Bloom → Tree → Tree
  pub insert : TreeItem → Tree → Tree
  pub items : Tree → List TreeItem
  pub items-init : items init ≡ []
  pub find_lem : (b : Bloom) (t : Tree) → find b t ≡ find_in b (items t)
  pub items-mark : (b : Bloom) (t : Tree) → items (mark b t) ≡ mark_in b (items t)
  pub items-insert :
      (i : TreeItem) (t : Tree)
      → find_in i.bloom (items t) ≡ none
      → items (insert i t) ≡ insert_in i (items t)

-- An ordered list meets the interface.
abbrev pub list_tree : Rbtree
list_tree = record {
  Tree = List TreeItem;
  init = [];
  find = find_in;
  mark = mark_in;
  insert = insert_in;
  items = λ t. t;
  items-init = refl;
  find_lem = λ b t. refl;
  items-mark = λ b t. refl;
  items-insert = λ i t h. refl;
}
