-- ===== src/Merge/Partial.antt =====
-- A round whose output file is there already.
use wdedup.Prelude.{
  ℕ, ◌+◌, ◌≤◌, ◌≡◌, ◌≢◌, ap, ◌∙◌, Bool, true, List, ◌++◌, some, arith, length, length-append, sym,
  ◌<◌, Option, inl, inr,
}
use wdedup.Errors.{ok}
use wdedup.Profile.{Profile}
use wdedup.ProfileFile.{encode}
use wdedup.ProfileFile.Stale.{stale}
use wdedup.ProfileFile.Size.{table_size}
use wdedup.File.{buffer_size}
use wdedup.Config.{Config, content, open_input, put_output, set_file, write_log}
use wdedup.Plan.{MergePlan}
use wdedup.Merge.{merge_entry, merge_one, collect}
use wdedup.Merge.Rounds.{Stored, open_input-Stored, merged, collect_keeps}

-- The state after a round whose output file held some bytes.
abbrev behind : Bool → MergePlan → List ℕ → Profile → Config → Config
behind gc plan part out c =
    collect gc plan.left plan.right (record (set_file plan.id (some (part ++ encode out)) c) {
      log = c.log ++ merge_entry plan (length (encode out));
    })

module _ (gc : Bool) (plan : MergePlan) (c : Config) (p q : Profile) (part : List ℕ) where
  merge_one-behind :
      open_input plan.left c ≡ ok (stale 0 p)
      → open_input plan.right c ≡ ok (stale 0 q)
      → c.files plan.id ≡ some part
      → c.olog ≡ true
      → merge_one gc plan c ≡ ok (behind gc plan part (merged p q) c)
  unfolding merge_one put_output write_log set_file
  merge_one-behind a b f o = rw (a, b, f, o)

  behind-file :
      plan.id ≢ plan.left
      → plan.id ≢ plan.right
      → (behind gc plan part (merged p q) c).files plan.id ≡ some (part ++ encode (merged p q))
  unfolding set_file
  behind-file k l = collect_keeps gc plan.left plan.right plan.id _ k l ∙ ground arith

  small_input :
      (j : ℕ) (r : Profile)
      → Stored c (j, r)
      → table_size r ≤ buffer_size
      → open_input j c ≡ ok (stale 0 r)
  small_input j r s h = elim (open_input-Stored c (j, r) s) [
    | inl e ↦ e
    | inr (e, large) ↦ absurd (omega arith)
  ]

  -- A round whose inputs are stored profiles of other numbers than its output, with the log open: if the
  -- output file holds bytes already, one at least, as an interrupted run may leave it, and the two
  -- profiles take at most 4096 bytes together, then the round is carried out, and its output file
  -- holds those bytes in front of the merged table, so that it is not the file of that table.
  pub merge_one-put_output :
      Stored c (plan.left, p)
      → Stored c (plan.right, q)
      → table_size p + table_size q ≤ buffer_size
      → plan.id ≢ plan.left
      → plan.id ≢ plan.right
      → c.files plan.id ≡ some part
      → c.olog ≡ true
      → 0 < length part
      → (c' : Config) × (merge_one gc plan c ≡ ok c')
        × (c'.files plan.id ≡ some (part ++ encode (merged p q)))
        × (c'.files plan.id ≢ some (encode (merged p q)))
  merge_one-put_output s t h k l f o n = (
    behind gc plan part (merged p q) c,
    merge_one-behind (small_input plan.left p s (omega arith))
        (small_input plan.right q t (omega arith)) f o,
    behind-file k l,
    λ e. omega (
      arith,
      n,
      ap (λ (m : Option (List ℕ)). length (content m)) (sym (behind-file k l) ∙ e),
      length-append part (encode (merged p q)),
    ),
  )
