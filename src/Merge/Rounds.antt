-- ===== src/Merge/Rounds.antt =====
-- One round of the merging loop: the two profiles of the plan give way to their merge.
use wdedup.Prelude.{
  ℕ, ◌<◌, ◌≤◌, ◌≡◌, ◌≢◌, refl, sym, ap, ap₂, ◌∙◌, Bool, true, List, [], ◌∷◌, ◌++◌, none, some,
  Option, ◌⊎◌, inl, inr, dec_lt, ◌+◌, arith, map, All, Pick, here, there, Distinct, length,
}
use wdedup.Errors.{Result, ok, err, fault, enoent}
use wdedup.Word.{Word}
use wdedup.Profile.{Profile}
use wdedup.Profile.Status.{Status, absent, ◌⊕◌, status, ⊕_assoc, ⊕_comm}
use wdedup.Profile.Ascending.{Ascending}
use wdedup.ProfileFile.{encode, read_table}
use wdedup.ProfileFile.Stale.{AreStorable, stale, status-stale}
use wdedup.ProfileFile.RoundTrip.{read_table-encode, encode-AreWhole}
use wdedup.ProfileFile.Size.{table_size, stale_size}
use wdedup.Tables.Size.{merge_into_size}
use wdedup.File.{buffer_size}
use wdedup.Tables.{merge_into}
use wdedup.Tables.Laws.{status-merge_into}
use wdedup.Config.{
  Config, content, profile_file, write_log, open_input, set_file, put_output, remove,
}
use wdedup.Plan.{MergePlan}
use wdedup.Merge.{merge_entry, collect, merge_one}

-- Profiles of the working directory by their number, as the tables that were written there.
abbrev pub Entry : Type 0
Entry = ℕ × Profile

-- The file of the entry holds its table, which is sorted and has words that are not empty.
pub record Stored (c : Config) (e : Entry) : Type 0 where
  pub file : c.files e.0 ≡ some (encode e.1)
  pub storable : AreStorable e.1
  pub ascending : Ascending e.1
  pub worded : All (λ i. i.word ≢ []) e.1

-- What all the profiles say of a word together.
unfoldable pub total : Word → List Entry → Status
total w [] = absent
total w (e ∷ live) = status w e.1 ⊕ total w live

pub total-append :
    (w : Word) (live more : List Entry) → total w (live ++ more) ≡ total w live ⊕ total w more
unfolding total
total-append w [] more = refl
total-append w (e ∷ live) more =
    ap (◌⊕◌ (status w e.1)) (total-append w live more) ∙ sym (⊕_assoc (status w e.1) _ _)

pub Pick-total :
    (w : Word) {e : Entry} {live rest : List Entry}
    → Pick e live rest
    → total w live ≡ status w e.1 ⊕ total w rest
unfolding total
Pick-total w here = refl
Pick-total w (there {x = e} {y = d} {l = live} {r = rest} p) =
    ap (◌⊕◌ (status w d.1)) (Pick-total w p)
    ∙ sym (⊕_assoc (status w d.1) (status w e.1) (total w rest))
    ∙ ap (λ s. s ⊕ total w rest) (⊕_comm (status w d.1) (status w e.1))
    ∙ ⊕_assoc (status w e.1) (status w d.1) (total w rest)

-- The profiles that are there, before the plan that makes profile `put`.
pub record Inv (c : Config) (put : ℕ) (live : List Entry) : Type 0 where
  pub stored : All (Stored c) live
  -- A file that is there already is empty.
  pub fresh : (j : ℕ) → put ≤ j → content (c.files j) ≡ []
  pub below : All (λ e. e.0 < put) live
  pub distinct : Distinct (map (λ e. e.0) live)
  pub open_log : c.olog ≡ true

-- How many bytes the profiles take.
abbrev pub space : List Entry → ℕ
space [] = 0
space (e ∷ live) = table_size e.1 + space live

pub Pick-space :
    {e : Entry} {live rest : List Entry}
    → Pick e live rest
    → space live ≡ table_size e.1 + space rest
Pick-space here = refl
Pick-space (there p) = omega (arith, Pick-space p)

-- A profile is delivered, or it is larger than a buffer and has a word that is cut by the end of one.
pub open_input-Stored :
    (c : Config) (e : Entry)
    → Stored c e
    → (open_input e.0 c ≡ ok (stale 0 e.1))
      ⊎ ((open_input e.0 c ≡ fault) × (buffer_size < table_size e.1))
unfolding open_input
open_input-Stored c e s =
    let opened : Option (List ℕ) → Result Profile = λ o. elim o [
      | none ↦ err (record (profile_file c e.0) { eno = enoent })
      | some bytes ↦ read_table (profile_file c e.0) bytes
    ] in
    elim (read_table-encode (profile_file c e.0) e.1 s.storable) [
      | inl (w, k) ↦ inl (ap opened s.file ∙ k)
      | inr (n, k) ↦ inr (
        ap opened s.file ∙ k,
        elim (dec_lt buffer_size (table_size e.1)) [
          | yes h ↦ h
          | no h ↦ absurd (n (encode-AreWhole e.1 0 (omega (arith, h))))
        ],
      )
    ]

-- The table that a round writes.
abbrev pub merged : Profile → Profile → Profile
merged p q = merge_into (stale 0 p) (stale 0 q) []

pub status-merged : (w : Word) (p q : Profile) → status w (merged p q) ≡ status w p ⊕ status w q
unfolding status
status-merged w p q =
    status-merge_into w (stale 0 p) (stale 0 q) []
    ∙ ap₂ ◌⊕◌ (status-stale w 0 p) (status-stale w 0 q)

pub collect_keeps :
    (gc : Bool) (left right j : ℕ) (c : Config)
    → j ≢ left
    → j ≢ right
    → (collect gc left right c).files j ≡ c.files j
unfolding collect remove set_file
collect_keeps gc left right j c h k = ground arith

pub collect-content :
    (gc : Bool) (left right j : ℕ) (c : Config)
    → content (c.files j) ≡ []
    → content ((collect gc left right c).files j) ≡ []
unfolding collect remove set_file
collect-content gc left right j c h = ground arith

-- The state after a round.
abbrev pub after_round : Bool → MergePlan → Profile → Config → Config
after_round gc plan out c =
    collect gc plan.left plan.right (record (set_file plan.id (some (encode out)) c) {
      log = c.log ++ merge_entry plan (length (encode out));
    })

module _ (gc : Bool) (plan : MergePlan) (c : Config) (p q : Profile) where
  pub merge_one_read :
      open_input plan.left c ≡ ok (stale 0 p)
      → open_input plan.right c ≡ ok (stale 0 q)
      → content (c.files plan.id) ≡ []
      → c.olog ≡ true
      → merge_one gc plan c ≡ ok (after_round gc plan (merged p q) c)
  unfolding merge_one put_output write_log set_file
  merge_one_read a b f o = rw (a, b, f, o)

  merge_one_left : open_input plan.left c ≡ fault → merge_one gc plan c ≡ fault
  unfolding merge_one
  merge_one_left a = rw a refl

  merge_one_right :
      open_input plan.left c ≡ ok (stale 0 p)
      → open_input plan.right c ≡ fault
      → merge_one gc plan c ≡ fault
  unfolding merge_one
  merge_one_right a b = rw (a, b) refl

  -- A round is carried out, or one of its inputs is larger than a buffer and has a word that is cut.
  pub merge_one_lem :
      Stored c (plan.left, p)
      → Stored c (plan.right, q)
      → content (c.files plan.id) ≡ []
      → c.olog ≡ true
      → (merge_one gc plan c ≡ ok (after_round gc plan (merged p q) c))
        ⊎ ((merge_one gc plan c ≡ fault) × (buffer_size < table_size p + table_size q))
  merge_one_lem s t f o = elim (open_input-Stored c (plan.left, p) s) [
    | inr (a, h) ↦ inr (merge_one_left a, omega arith)
    | inl a ↦ elim (open_input-Stored c (plan.right, q) t) [
      | inr (b, h) ↦ inr (merge_one_right a b, omega arith)
      | inl b ↦ inl (merge_one_read a b f o)
    ]
  ]

-- A round does not need more space than there was.
pub round_space :
    (left right put : ℕ) (p q : Profile) {live r s t : List Entry}
    → Pick (left, p) live r
    → Pick (right, q) r s
    → Pick (put, merged p q) t s
    → space t ≤ space live
round_space left right put p q a b k = omega (
  arith,
  Pick-space a,
  Pick-space b,
  Pick-space k,
  merge_into_size (stale 0 p) (stale 0 q),
  stale_size 0 p,
  stale_size 0 q,
)
