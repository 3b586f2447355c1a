-- ===== src/Find/Best.antt =====
-- The scan as a fold over the items that are not repeated, with fuel enough.
use wdedup.Prelude.{
  ℕ, zero, suc, ◌+◌, ◌<◌, ◌≡◌, refl, [], ◌∷◌, arith, if◌then◌else◌, length, inl, inr, Bool-cases,
}
use wdedup.Errors.{ok}
use wdedup.Word.{Word}
use wdedup.Profile.{Profile}
use wdedup.Filter.{skip_repeated, open_filter, pop_filter}
use wdedup.Find.{replaces, scan, find_first}

-- The result and its offset after the whole table.
unfoldable pub best : Profile → Word → ℕ → Word × ℕ
best [] result off = (result, off)
best (i ∷ p) result off =
    best p (if i.repeated then result else if replaces result off i then i.word else result)
      (if i.repeated then off else if replaces result off i then i.occur else off)

scan-best :
    (p : Profile) (fuel : ℕ) (result : Word) (off : ℕ)
    → length p < fuel
    → scan fuel (skip_repeated p) result off ≡ ok (best p result off).0
unfolding scan skip_repeated pop_filter best
scan-best p zero result off h = absurd (omega arith)
scan-best [] (suc fuel) result off h = refl
scan-best (i ∷ p) (suc fuel) result off h = elim (Bool-cases i.repeated) [
  | inl more ↦ rw more (scan-best p (suc fuel) result off (omega arith))
  | inr one ↦ rw one (scan-best p fuel _ _ (omega arith))
]

pub find_first-best : (p : Profile) → find_first p ≡ ok (best p [] 0).0
unfolding find_first open_filter
find_first-best p = scan-best p (length p + 1) [] 0 (omega arith)
