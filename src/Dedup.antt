-- ===== src/Dedup.antt =====
-- include/impl/wtreededup.hpp, src/wtreededup.cpp: the deduplication of words in the working memory by a tree.
pub mod Items
pub mod Marks
pub mod Pour
pub mod Refine
use wdedup.Prelude.{
  ℕ, ◌+◌, ◌-◌, ◌%◌, ◌^◌, Bool, true, false, List, [], ◌∷◌, ◌++◌, Option, none, some, ◌==◌,
  if◌then◌else◌,
}
use wdedup.Word.{Word}
use wdedup.Profile.{ProfileItem, Profile, push, repeated_item, single_item}
use wdedup.Bloom.{Bloom, decompose, reconstruct}
use wdedup.Memory.{Memory, new_memory, alloc}
use wdedup.Rbtree.{Rbtree, TreeItem}

-- `sizeof(TreeDedupItem)` on a 64-bit machine: the bloom, its pointer, the offset, and the four
-- words of a tree node.
abbrev pub item_size : ℕ
item_size = 56

-- What `pour` writes for a node.
unfoldable pub pour_item : TreeItem → ProfileItem
pour_item i =
    if i.occur == 0
    then repeated_item (reconstruct i.bloom)
    else single_item (reconstruct i.bloom) (i.occur - 1)

-- The loop of `pour`.
unfoldable pub pour_items : List TreeItem → Profile → Profile
unfolding pour_item push
pour_items [] output = output
pour_items (i ∷ l) output = pour_items l (push output (pour_item i))

module _ (rb : Rbtree) where
  open rb use {Tree, init, find, mark, insert, items}

  -- `TreeDedup`.
  pub record TreeDedup : Type 0 where
    pub wmman : Memory
    pub root : Tree

  -- The constructor.
  unfoldable pub new_dedup : ℕ → TreeDedup
  new_dedup vmsize = record { wmman = new_memory vmsize; root = init }

  -- `insert` of a word that is not in the tree. The bytes of the pool are copied.
  unfoldable pub insert_new : Bloom → ℕ → ℕ → TreeDedup → Bool × TreeDedup
  insert_new bloomed allocpool offset d = elim (alloc item_size allocpool d.wmman) [
    | none ↦ (false, d)
    | some (m, b) ↦ (
      true,
      record {
        wmman = m;
        root = insert (record { bloom = bloomed; occur = (offset + 1) % 2 ^ 64 }) d.root;
      },
    )
  ]

  -- `insert`.
  unfoldable pub insert_word : Word → ℕ → TreeDedup → Bool × TreeDedup
  unfolding insert_new
  insert_word [] offset d = (false, d)
  insert_word (w ∷ word) offset d =
      let (bloomed, allocpool) = decompose (w ∷ word) in
      elim (find bloomed d.root) [
        | some found ↦ (true, record d { root = mark bloomed d.root })
        | none ↦ insert_new bloomed allocpool offset d
      ]

  -- `pour`: the items that are pushed to the output.
  unfoldable pub pour : TreeDedup → Profile
  unfolding pour_items
  pour d = pour_items (items d.root) []
