-- ===== src/Find.antt =====
-- src/wfindfirst.cpp: the scan for the word that occurs once and first.
pub mod Best
pub mod First
use wdedup.Prelude.{ℕ, zero, suc, ◌+◌, [], ltb, Bool, ◌||◌, if◌then◌else◌, none, some, length}
use wdedup.Errors.{Result, ok, stuck}
use wdedup.Word.{Word, word_eq}
use wdedup.Profile.{ProfileItem, Profile}
use wdedup.Filter.{open_filter, pop_filter}

-- Whether the item should replace the current result.
abbrev pub replaces : Word → ℕ → ProfileItem → Bool
replaces result off item = word_eq result [] || ltb item.occur off

-- The scanning loop over the filtered input.
unfoldable pub scan : ℕ → Profile → Word → ℕ → Result Word
scan zero input result off = stuck
scan (suc fuel) input result off = elim (pop_filter input) [
  | none ↦ ok result
  | some (item, rest) ↦
      scan fuel rest (if replaces result off item then item.word else result)
        (if replaces result off item then item.occur else off)
]

-- `wfindfirst` on the table of the root profile.
unfoldable pub find_first : Profile → Result Word
unfolding scan open_filter pop_filter
find_first root = scan (length root + 1) (open_filter root) [] 0
