-- ===== src/Tests/Words.antt =====
-- Runs of the deduplication on small inputs, and its theorems at concrete inputs.
use wdedup.Prelude.{ℕ, ◌≡◌, ◌≢◌, refl, List, [], ◌∷◌, All, arith}
use wdedup.Word.{Word, codes}
use wdedup.Profile.{ProfileItem, single_item, repeated_item}
use wdedup.Profile.Status.{status}
use wdedup.Profile.Ascending.{Ascending}
use wdedup.ProfileFile.Stale.{AreStorable}
use wdedup.Bloom.{decompose, reconstruct, difference, word_cmp}
use wdedup.Bloom.Order.{difference-decompose}
use wdedup.Bloom.Reconstruct.{reconstruct-decompose}
use wdedup.Memory.{Memory, alloc, new_memory}
use wdedup.Memory.Safe.{Allocated, alloc-Allocated}
use wdedup.Rbtree.{list_tree, find_in, insert_in, mark_in}
use wdedup.Dedup.{TreeDedup, new_dedup, insert_word, pour}
use wdedup.Dedup.Refine.{IsOccurrence, Inserts, insert_word-Inserts}
use wdedup.Dedup.Pour.{new_dedup-IsSorted, insert_each, insert_each-pour, occurrences}

abbrev pub long_word : Word
long_word = codes "wavelength"

difference-decompose_example :
    difference (decompose long_word).0 (decompose (codes "wave")).0
    ≡ word_cmp long_word (codes "wave")
difference-decompose_example =
    difference-decompose long_word (codes "wave") (omega arith) (omega arith) (omega arith)
      (omega arith)

reconstruct-decompose_example : reconstruct (decompose long_word).0 ≡ long_word
reconstruct-decompose_example = reconstruct-decompose long_word (omega arith) (omega arith)

-- A memory of 200 bytes with one item and one string in it.
abbrev some_memory : Memory
some_memory = record { vmsize = 200; poolsize = 4; arraysize = 1 }

alloc-Allocated_example : Allocated 56 7 some_memory (alloc 56 7 some_memory)
alloc-Allocated_example = alloc-Allocated 56 7 some_memory (omega arith) (omega arith)

abbrev pub text : List (Word × ℕ)
text = (codes "sea", 0) ∷ (long_word, 4) ∷ (codes "sea", 15) ∷ []

pub text-AreOccurrences : All IsOccurrence text
text-AreOccurrences = (
  (record { no_null = omega arith; bytes = omega arith; nonempty = λ e. cc }, omega arith),
  (
    (record { no_null = omega arith; bytes = omega arith; nonempty = λ e. cc }, omega arith),
    ((record { no_null = omega arith; bytes = omega arith; nonempty = λ e. cc }, omega arith), tt),
  ),
)

abbrev pub filled : TreeDedup list_tree
filled = (insert_each list_tree text (new_dedup list_tree 1000)).1

pour-filled : pour list_tree filled ≡ repeated_item (codes "sea") ∷ single_item long_word 4 ∷ []
unfolding pour insert_each insert_word find_in new_dedup alloc new_memory decompose insert_in
    difference mark_in reconstruct
pour-filled = refl

insert_each-pour_example :
    Ascending (pour list_tree filled)
    × AreStorable (pour list_tree filled)
    × All (λ (i : ProfileItem). i.word ≢ []) (pour list_tree filled)
    × ((w : Word) → status w (pour list_tree filled) ≡ status w (occurrences text))
unfolding insert_each insert_word find_in new_dedup alloc new_memory decompose insert_in difference
insert_each-pour_example = insert_each-pour list_tree text 1000 filled text-AreOccurrences refl

insert_word-Inserts_example : Inserts list_tree long_word 30 (new_dedup list_tree 60)
insert_word-Inserts_example =
    insert_word-Inserts list_tree long_word 30 (new_dedup list_tree 60)
      (record { no_null = omega arith; bytes = omega arith; nonempty = λ e. cc }) (omega arith)
      (new_dedup-IsSorted list_tree 60)
