-- ===== src/ProfileFile/Size.antt =====
-- How many bytes a table takes in its file.
use wdedup.Prelude.{
  ℕ, ◌+◌, ◌≤◌, ◌≡◌, refl, Bool, true, false, [], ◌∷◌, arith, length, length-append, if◌then◌else◌,
}
use wdedup.Word.{Word}
use wdedup.Serial.{put_char, put_size}
use wdedup.Profile.{ProfileItem, Profile, repeated_item}
use wdedup.ProfileFile.{item_bytes, encode}
use wdedup.ProfileFile.Stale.{stale}
use wdedup.ProfileFile.Fill.{mark, length-item}

abbrev pub table_size : Profile → ℕ
table_size p = length (encode p)

pub table_size-cons :
    (i : ProfileItem) (p : Profile) → table_size (i ∷ p) ≡ length (item_bytes i) + table_size p
unfolding encode
table_size-cons i p = length-append (item_bytes i) (encode p)

mark_least :
    (w : Word) (b : Bool) (off : ℕ)
    → 1 ≤ length (mark (record { word = w; repeated = b; occur = off }))
unfolding put_char put_size
mark_least w true off = omega arith
mark_least w false off = omega arith

mark_same :
    (w : Word) (b : Bool) (off off' : ℕ)
    → length (mark (record { word = w; repeated = b; occur = off }))
      ≡ length (mark (record { word = w; repeated = b; occur = off' }))
unfolding put_char put_size
mark_same w true off off' = refl
mark_same w false off off' = refl

mark_repeated : (w : Word) → length (mark (repeated_item w)) ≡ 1
unfolding put_char
mark_repeated w = refl

-- A repeated item takes no more bytes than any item of its word.
pub repeated_size :
    (i : ProfileItem) → length (item_bytes (repeated_item i.word)) ≤ length (item_bytes i)
repeated_size i = omega (
  arith,
  length-item (repeated_item i.word),
  length-item i,
  mark_repeated i.word,
  mark_least i.word i.repeated i.occur,
)

pub stale_size : (occur : ℕ) (p : Profile) → table_size (stale occur p) ≡ table_size p
unfolding stale
stale_size occur [] = refl
stale_size occur (i ∷ p) =
    let off = if i.repeated then occur else i.occur in
    let j = record i { occur = off } in
    omega (
      arith,
      table_size-cons j (stale off p),
      table_size-cons i p,
      length-item j,
      length-item i,
      mark_same i.word i.repeated off i.occur,
      stale_size off p,
    )
