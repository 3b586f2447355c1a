-- ===== src/Tests/Sort.antt =====
-- Runs of the deduplication by sorting, and its theorems at concrete inputs.
use wdedup.Prelude.{◌≡◌, ◌≢◌, refl, [], ◌∷◌, All, false}
use wdedup.Word.{Word, codes}
use wdedup.Profile.{ProfileItem, Profile, single_item, repeated_item}
use wdedup.Profile.Status.{status}
use wdedup.Profile.Ascending.{Ascending}
use wdedup.ProfileFile.Stale.{AreStorable}
use wdedup.Bloom.{decompose, reconstruct, difference}
use wdedup.Memory.{alloc, new_memory}
use wdedup.Rbtree.{list_tree, find_in, insert_in}
use wdedup.Dedup.{new_dedup, insert_word, pour}
use wdedup.Dedup.Pour.{insert_each, occurrences}
use wdedup.SortDedup.{
  SortDedup, new_sort_dedup, add_word, item_less, item_equal, write_item, write_groups, pour_sorted,
}
use wdedup.SortDedup.Insertion.{insertion_sort, insertion_sorter}
use wdedup.SortDedup.Pours.{add_each, add_each-pour_sorted}
use wdedup.SortDedup.Agree.{pour-pour_sorted}
use wdedup.Tests.Words.{long_word, text, text-AreOccurrences, filled}

abbrev sorted : SortDedup
sorted = (add_each text (new_sort_dedup 1000)).1

abbrev poured : Profile
poured = pour_sorted insertion_sort sorted

pour_sorted_text : poured ≡ repeated_item (codes "sea") ∷ single_item long_word 4 ∷ []
unfolding pour_sorted add_each add_word new_sort_dedup alloc new_memory decompose insertion_sort
    difference item_less item_equal write_item write_groups reconstruct
pour_sorted_text = refl

-- The third word does not fit: 24 bytes an item, and a string of 2 for the long word.
add_each_full : (add_each text (new_sort_dedup 73)).0 ≡ false
unfolding add_each add_word new_sort_dedup alloc new_memory decompose
add_each_full = refl

add_each-pour_sorted_example :
    Ascending poured
    × AreStorable poured
    × All (λ (i : ProfileItem). i.word ≢ []) poured
    × ((w : Word) → status w poured ≡ status w (occurrences text))
unfolding add_each add_word new_sort_dedup alloc new_memory decompose
add_each-pour_sorted_example =
    add_each-pour_sorted insertion_sorter text 1000 sorted text-AreOccurrences refl

pour-pour_sorted_example : pour list_tree filled ≡ poured
unfolding insert_each insert_word find_in new_dedup insert_in difference add_each add_word
    new_sort_dedup alloc new_memory decompose
pour-pour_sorted_example =
    pour-pour_sorted list_tree insertion_sorter text 1000 1000 filled sorted text-AreOccurrences
      refl refl
