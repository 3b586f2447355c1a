-- ===== src/ProfileFile/Stale.antt =====
-- What a table in a file can hold, and the offsets that the reader delivers.
use wdedup.Prelude.{
  All, ℕ, ◌<◌, ◌^◌, ◌≡◌, refl, true, false, [], ◌∷◌, if◌then◌else◌, inl, inr, Bool-cases,
}
use wdedup.Word.{Word, NoNull}
use wdedup.Profile.{ProfileItem, Profile}
use wdedup.Profile.Status.{status}
use wdedup.Profile.Ascending.{Above, Ascending}

-- The items that a file can hold: words without terminators, offsets of eight bytes.
abbrev pub IsStorable : ProfileItem → Type 0
IsStorable i = NoNull i.word × (i.occur < 2 ^ 64)

abbrev pub AreStorable : Profile → Type 0
AreStorable = All IsStorable

-- What the reader delivers: a repeated item has the offset of the item before it.
unfoldable pub stale : ℕ → Profile → Profile
stale occur [] = []
stale occur (i ∷ p) =
    record i { occur = if i.repeated then occur else i.occur }
    ∷ stale (if i.repeated then occur else i.occur) p

pub status-stale : (w : Word) (occur : ℕ) (p : Profile) → status w (stale occur p) ≡ status w p
unfolding status stale
status-stale w occur [] = refl
status-stale w occur (i ∷ p) = elim (Bool-cases i.repeated) [
  | inl h ↦ rw (h, status-stale w occur p)
  | inr h ↦ rw (h, status-stale w i.occur p)
]

Above-stale : (w : Word) (occur : ℕ) (p : Profile) → Above w p → Above w (stale occur p)
unfolding stale
Above-stale w occur [] a = tt
Above-stale w occur (i ∷ p) a = (a.0, Above-stale w _ p a.1)

-- A property of items that the offset 0 and that of another item keep holds of what is delivered.
pub All-stale :
    (P : ProfileItem → Type 0) (occur : ℕ) (p : Profile)
    → ((i : ProfileItem) → P i → P (record i { occur = occur }))
    → ((i j : ProfileItem) → P i → P j → P (record i { occur = j.occur }))
    → All P p
    → All P (stale occur p)
unfolding stale
All-stale P occur [] f g h = tt
All-stale P occur (i ∷ p) f g h = (
  elim i.repeated as (λ b. P (record i { occur = if b then occur else i.occur })) [
    | true ↦ f i h.0
    | false ↦ h.0
  ],
  elim i.repeated as (λ b. All P (stale (if b then occur else i.occur) p)) [
    | true ↦ All-stale P occur p f g h.1
    | false ↦ All-stale P i.occur p (λ j k. g j i k h.0) g h.1
  ],
)

pub Ascending-stale : (occur : ℕ) (p : Profile) → Ascending p → Ascending (stale occur p)
unfolding stale
Ascending-stale occur [] a = tt
Ascending-stale occur (i ∷ p) a = (Above-stale i.word _ p a.0, Ascending-stale _ p a.1)
