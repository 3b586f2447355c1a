-- ===== src/SortDedup.antt =====
-- include/impl/wsortdedup.hpp, src/wsortdedup.cpp: the deduplication of words in the working memory by sorting.
pub mod Scan
pub mod Sorting
pub mod Insertion
pub mod Pours
pub mod Agree
use Prim.Native.Nat.{Ordering}
use wdedup.Prelude.{ℕ, Bool, true, false, List, [], ◌∷◌, ◌++◌, none, some, if◌then◌else◌}
use wdedup.Word.{Word}
use wdedup.Profile.{ProfileItem, Profile, push, repeated_item, single_item}
use wdedup.Bloom.{Bloom, decompose, reconstruct, difference}
use wdedup.Memory.{Memory, new_memory, alloc}

-- `sizeof(SortDedupItem)` on a 64-bit machine: the bloom, its pointer and the offset.
abbrev pub sort_item_size : ℕ
sort_item_size = 24

-- `SortDedupItem`.
pub record SortItem : Type 0 where
  pub bloom : Bloom
  pub occur : ℕ

-- Its `operator<` and `operator==`.
unfoldable pub item_less : SortItem → SortItem → Bool
item_less i j = elim (difference i.bloom j.bloom) [ Ordering.lt ↦ true | _ ↦ false ]

unfoldable pub item_equal : SortItem → SortItem → Bool
item_equal i j = elim (difference i.bloom j.bloom) [ Ordering.eq ↦ true | _ ↦ false ]

-- `SortDedup`: the memory, and the items in it from its start on.
pub record SortDedup : Type 0 where
  pub wmman : Memory
  pub stored : List SortItem

-- The constructor.
unfoldable pub new_sort_dedup : ℕ → SortDedup
new_sort_dedup vmsize = record { wmman = new_memory vmsize; stored = [] }

-- `insert`. The bytes of the pool are copied.
unfoldable pub add_word : Word → ℕ → SortDedup → Bool × SortDedup
add_word [] offset d = (false, d)
add_word (w ∷ word) offset d =
    let (bloomed, allocpool) = decompose (w ∷ word) in
    elim (alloc sort_item_size allocpool d.wmman) [
      | none ↦ (false, d)
      | some (m, b) ↦ (
        true,
        record { wmman = m; stored = d.stored ++ record { bloom = bloomed; occur = offset } ∷ [] },
      )
    ]

-- `writeitem`, where `alone` says that the first item of its group is the last.
unfoldable pub write_item : SortItem → Bool → ProfileItem
write_item i alone =
    if alone then single_item (reconstruct i.bloom) i.occur else repeated_item (reconstruct i.bloom)

-- The loop over the sorted items, with the first item of the group.
unfoldable pub write_groups : SortItem → Bool → List SortItem → Profile → Profile
unfolding write_item item_equal push
write_groups first alone [] output = push output (write_item first alone)
write_groups first alone (i ∷ l) output =
    if item_equal i first
    then write_groups first false l output
    else write_groups i true l (push output (write_item first alone))

-- `pour`, with the function that sorts.
unfoldable pub pour_sorted : (List SortItem → List SortItem) → SortDedup → Profile
unfolding write_groups
pour_sorted sort d = elim d.stored [
  | [] ↦ []
  | _ ↦ elim (sort d.stored) [ [] ↦ [] | i ∷ l ↦ write_groups i true l [] ]
]
