-- ===== src/Merge/Resume.antt =====
-- What the recovery of the merge stage leaves of the profiles in the working directory.
use wdedup.Prelude.{
  ℕ, ◌≤◌, ◌^◌, ◌≡◌, ◌≢◌, refl, sym, ap, ◌∙◌, Bool, true, List, [], ◌∷◌, none, some, Option, ◌⊎◌,
  inl, inr, arith, All, All-mono, All-both,
}
use wdedup.ProfileFile.{encode}
use wdedup.Config.{content, Config, has_recovery_done, recovery_done}
use wdedup.Plan.{MergePlan}
use wdedup.Merge.{collect}
use wdedup.Merge.Rounds.{Entry, Stored, Inv, collect_keeps}
use wdedup.Merge.Logged.{collect_all, IsSized}
use wdedup.Merge.Run.{IsDone}

-- The number is not that of a profile that one of the plans merges away.
abbrev pub IsKept : List MergePlan → ℕ → Type 0
IsKept done j = All (λ plan. (j ≢ plan.left) × (j ≢ plan.right)) done

pub collect_all_keeps :
    (gc : Bool) (done : List MergePlan) (j : ℕ) (c : Config)
    → IsKept done j
    → (collect_all gc done c).files j ≡ c.files j
collect_all_keeps gc [] j c k = refl
collect_all_keeps gc (plan ∷ done) j c ((h, k), ks) =
    collect_all_keeps gc done j (collect gc plan.left plan.right c) ks
    ∙ collect_keeps gc plan.left plan.right j c h k

-- The state in which the loop goes on.
abbrev pub resumed_at : Bool → List MergePlan → Config → Config
resumed_at gc done c = recovery_done (record (collect_all gc done c) { ilog = some [] })

recovery_done_keeps : (c : Config) (j : ℕ) → (recovery_done c).files j ≡ c.files j
unfolding recovery_done
recovery_done_keeps c j = ground arith

recovery_done_opens : (c : Config) → (recovery_done (record c { ilog = some [] })).olog ≡ true
unfolding recovery_done has_recovery_done
recovery_done_opens c = ground arith

no_condition : (live : List Entry) → All (λ e. IsKept [] e.0) live
no_condition [] = tt
no_condition (e ∷ live) = (tt, no_condition live)

pub live-AreKept :
    (put : ℕ) (live : List Entry) (done : List MergePlan)
    → All (IsDone put live) done
    → All (λ e. IsKept done e.0) live
live-AreKept put live [] d = no_condition live
live-AreKept put live (plan ∷ done) (d, ds) =
    All-mono _ (λ e. IsKept (plan ∷ done) e.0) live
      (λ e h. ((λ k. h.0.0 (sym k), λ k. h.0.1 (sym k)), h.1))
      (All-both (λ e. (plan.left ≢ e.0) × (plan.right ≢ e.0)) (λ e. IsKept done e.0) live
        (All-both (λ e. plan.left ≢ e.0) (λ e. plan.right ≢ e.0) live d.left_gone d.right_gone)
        (live-AreKept put live done ds))

-- A file is as it was, or it is new and empty.
abbrev pub IsAsLeft : Config → Config → ℕ → Type 0
IsAsLeft c again j = (again.files j ≡ c.files j) ⊎ ((c.files j ≡ none) × (again.files j ≡ some []))

file_as_left :
    (c again : Config) (e : Entry)
    → IsAsLeft c again e.0
    → Stored c e
    → again.files e.0 ≡ c.files e.0
file_as_left c again e (inl same) s = same
file_as_left c again e (inr (no_file, new)) s =
    let clash : ◌≡◌ {A = Option (List ℕ)} none (some (encode e.1)) = sym no_file ∙ s.file in
    absurd (cc)

content_as_left :
    (c again : Config) (j : ℕ)
    → IsAsLeft c again j
    → content (c.files j) ≡ []
    → content (again.files j) ≡ []
content_as_left c again j (inl same) h = ap content same ∙ h
content_as_left c again j (inr (no_file, new)) h = ap content new

-- A profile that is still needed is found as the stopped run left it.
pub Stored-kept :
    (c again d : Config) (done : List MergePlan) (live : List Entry)
    → ((j : ℕ) → IsKept done j → IsAsLeft c again j)
    → ((j : ℕ) → IsKept done j → d.files j ≡ again.files j)
    → All (λ e. IsKept done e.0) live
    → All (Stored c) live
    → All (Stored d) live
Stored-kept c again d done live same keeps kept stored =
    All-mono (λ e. IsKept done e.0 × Stored c e) (Stored d) live
      (λ e h. record {
        file = keeps e.0 h.0 ∙ file_as_left c again e (same e.0 h.0) h.1 ∙ h.1.file;
        storable = h.1.storable;
        ascending = h.1.ascending;
        worded = h.1.worded;
      })
      (All-both (λ e. IsKept done e.0) (Stored c) live kept stored)

above-IsKept :
    (put j : ℕ) (live : List Entry) (done : List MergePlan)
    → All (IsDone put live) done
    → put ≤ j
    → IsKept done j
above-IsKept put j live done d h =
    All-mono (IsDone put live) _ done
      (λ plan i. (omega (arith, i.left_below), omega (arith, i.right_below))) d

pub resumed-Inv :
    (gc : Bool) (done : List MergePlan) (c again : Config) (put : ℕ) (live : List Entry)
    → Inv c put live
    → All (IsDone put live) done
    → ((j : ℕ) → IsKept done j → IsAsLeft c again j)
    → Inv (resumed_at gc done again) put live
resumed-Inv gc done c again put live inv d same = record {
  stored =
      Stored-kept c again (resumed_at gc done again) done live same keeps
        (live-AreKept put live done d) inv.stored;
  fresh = λ j h.
      ap content (keeps j (above-IsKept put j live done d h))
      ∙ content_as_left c again j (same j (above-IsKept put j live done d h)) (inv.fresh j h);
  below = inv.below;
  distinct = inv.distinct;
  open_log = recovery_done_opens (collect_all gc done again);
}
  where
    keeps : (j : ℕ) → IsKept done j → (resumed_at gc done again).files j ≡ again.files j
    keeps j k = recovery_done_keeps _ j ∙ collect_all_keeps gc done j again k

pub done-AreSized :
    (put : ℕ) (live : List Entry) (done : List MergePlan)
    → put ≤ 2 ^ 64
    → All (IsDone put live) done
    → All IsSized done
done-AreSized put live done h d =
    All-mono (IsDone put live) IsSized done
      (λ plan i.
        (omega (arith, i.left_below), omega (arith, i.right_below), omega (arith, i.id_below)))
      d
