-- ===== src/ProfileFile/RoundTrip.antt =====
-- A file delivers what was pushed into it, if no word is cut by the end of a buffer.
use wdedup.Prelude.{
  ℕ, zero, suc, ◌+◌, ◌<◌, ◌≤◌, ◌%◌, ◌≡◌, refl, ap, ◌∙◌, true, false, [], ◌∷◌, ◌++◌, arith,
  if◌then◌else◌, length, length-append, inl, inr, ◌⊎◌, dec_lt,
}
use wdedup.Errors.{Result, ok, fault, Error, ◌>>=◌}
use wdedup.Serial.{put_char, put_size, put_string}
use wdedup.File.{SequentialFile, open_file, reads_of, buffer_size}
use wdedup.File.Stream.{Reads}
use wdedup.File.Blocks.{IsBlocked, opened-IsBlocked}
use wdedup.File.Cut.{IsWhole}
use wdedup.Profile.{ProfileItem, Profile, repeated_item}
use wdedup.ProfileFile.{
  item_bytes, encode, ProfileInput, open_bytes, pop_fill, pop_item, pop_all, read_table,
}
use wdedup.ProfileFile.Stale.{AreStorable, stale}
use wdedup.ProfileFile.Fill.{ahead, length-item, pop_fill_whole, pop_fill_cut, pop_fill_end}

-- No word of the table is cut by the end of a buffer, when its first item is written at `pos`.
abbrev pub AreWhole : ℕ → Profile → Type 0
AreWhole pos [] = Unit {0}
AreWhole pos (i ∷ p) = IsWhole pos i.word × AreWhole (pos + length (item_bytes i)) p

-- The table is delivered if no word is cut, and otherwise the code writes out of bounds.
abbrev pub Delivers : ℕ → Profile → Profile → Result Profile → Type 0
Delivers pos p q m = (AreWhole pos p × (m ≡ ok q)) ⊎ ((¬ AreWhole pos p) × (m ≡ fault))

module _ (file : Error) where
  pop_all_end :
      (fuel : ℕ) (s : ProfileInput) → s.is_empty ≡ true → pop_all file (suc fuel) s ≡ ok []
  unfolding pop_all
  pop_all_end fuel s h = rw h refl

  -- A round of the reader: the item that was read ahead, once the next one is.
  round : ℕ → ProfileItem → Result ProfileInput → Result Profile
  round fuel i m = (m >>= λ s. ok (i, s)) >>= λ (x : ProfileItem × ProfileInput).
      pop_all file fuel x.1 >>= λ (p : Profile). ok (x.0 ∷ p)

  pop_all-round :
      (fuel : ℕ) (s : ProfileInput)
      → s.is_empty ≡ false
      → pop_all file (suc fuel) s
        ≡ round fuel s.head (pop_fill file (record s { head = record s.head { word = [] } }))
  unfolding pop_all pop_item round
  pop_all-round fuel s h = rw h refl

  -- What is read ahead is the first item, if its word is not cut.
  pop_all-ahead :
      (p : Profile) (i : ProfileItem) (occur pos fuel : ℕ) (f : SequentialFile)
      → length p + 1 < fuel
      → AreStorable p
      → Reads f pos (encode p)
      → IsBlocked f
      → Delivers pos p (stale occur (i ∷ p)) (pop_all file fuel (ahead i occur f))
  unfolding encode stale round
  pop_all-ahead p i occur pos zero f h s r b = absurd (omega arith)
  pop_all-ahead [] i occur pos (suc zero) f h s r b = absurd (omega arith)
  pop_all-ahead [] i occur pos (suc (suc fuel)) f h s r b = inl (
    tt,
    pop_all-round (suc fuel) (ahead i occur f) refl
        ∙ ap (round (suc fuel) (ahead i occur f).head) (pop_fill_end file _ false f r.ended)
        ∙ ap (λ (m : Result Profile). m >>= λ q. ok ((ahead i occur f).head ∷ q))
            (pop_all_end fuel _ refl),
  )
  pop_all-ahead (j ∷ p) i occur pos (suc fuel) f h (t, s) r b =
      let old = record (ahead i occur f).head { word = [] } in
      let first = pop_all-round fuel (ahead i occur f) refl in
      elim (dec_lt (pos % buffer_size + length j.word) buffer_size) [
        | no cut ↦ inr (
          λ w. cut w.0,
          first
              ∙ ap (round fuel (ahead i occur f).head)
                  (pop_fill_cut file j (encode p) pos old false f t.0 r b cut),
        )
        | yes whole ↦
            let (f', fills, r', b') =
              pop_fill_whole file j (encode p) pos old false f t r b whole in
            let runs = first ∙ ap (round fuel (ahead i occur f).head) fills in
            elim (pop_all-ahead p j old.occur (pos + length (item_bytes j)) fuel f' (omega arith) s
              r' b') [
                | inl (w, e) ↦ inl (
                  (whole, w),
                  runs ∙ ap (λ (m : Result Profile). m >>= λ q. ok ((ahead i occur f).head ∷ q)) e,
                )
                | inr (n, e) ↦ inr (
                  λ w. n w.1,
                  runs ∙ ap (λ (m : Result Profile). m >>= λ q. ok ((ahead i occur f).head ∷ q)) e,
                )
              ]
      ]

length-item_bytes : (i : ProfileItem) → 0 < length (item_bytes i)
unfolding item_bytes put_string
length-item_bytes i = omega (
  arith,
  length-append (put_string i.word)
      (if i.repeated then put_char 1 else put_char 0 ++ put_size i.occur),
  length-append i.word (0 ∷ []),
)

pub length-encode : (p : Profile) → length p ≤ length (encode p)
unfolding encode
length-encode [] = omega arith
length-encode (i ∷ p) =
    omega (arith, length-append (item_bytes i) (encode p), length-item_bytes i, length-encode p)

-- A regular file that was written as a table of storable items delivers that table, if every word
-- ends in the block of 4096 bytes that it starts in: its words, which of them are repeated, and
-- the offsets of the others. A repeated item is delivered with the offset of the last single one
-- before it. If a word does not, the code writes out of bounds.
pub read_table-encode :
    (file : Error) (p : Profile)
    → AreStorable p
    → Delivers 0 p (stale 0 p) (read_table file (encode p))
unfolding read_table open_bytes encode stale
read_table-encode file [] s =
    let (r, b) = opened-IsBlocked [] in
    let f = open_file 0 (reads_of []) in
    inl (
      tt,
      ap (λ (m : Result ProfileInput). m >>= pop_all file 1)
            (pop_fill_end file (repeated_item []) true f r.ended)
          ∙ pop_all_end file 0 (record { input = f; head = repeated_item []; is_empty = true })
              refl,
    )
read_table-encode file (i ∷ p) (t, s) =
    let (r, b) = opened-IsBlocked (encode (i ∷ p)) in
    let f = open_file 0 (reads_of (encode (i ∷ p))) in
    let fuel = length (encode (i ∷ p)) + 1 in
    elim (dec_lt (0 % buffer_size + length i.word) buffer_size) [
      | no cut ↦ inr (
        λ w. cut w.0,
        ap (λ (m : Result ProfileInput). m >>= pop_all file fuel)
            (pop_fill_cut file i (encode p) 0 (repeated_item []) true f t.0 r b cut),
      )
      | yes whole ↦
          let (f', fills, r', b') =
            pop_fill_whole file i (encode p) 0 (repeated_item []) true f t r b whole in
          let runs = ap (λ (m : Result ProfileInput). m >>= pop_all file fuel) fills in
          elim (pop_all-ahead file p i 0 (0 + length (item_bytes i)) fuel f'
            (omega (arith, length-encode (i ∷ p))) s r' b') [
              | inl (w, e) ↦ inl ((whole, w), runs ∙ e)
              | inr (n, e) ↦ inr (λ w. n w.1, runs ∙ e)
            ]
    ]

-- A table whose bytes fit one buffer has no word that is cut.
pub encode-AreWhole :
    (p : Profile) (pos : ℕ) → pos + length (encode p) ≤ buffer_size → AreWhole pos p
unfolding encode
encode-AreWhole [] pos h = tt
encode-AreWhole (i ∷ p) pos h =
    let size = length-append (item_bytes i) (encode p) in
    (
      omega (arith, h, size, length-item i),
      encode-AreWhole p (pos + length (item_bytes i)) (omega (arith, h, size)),
    )
