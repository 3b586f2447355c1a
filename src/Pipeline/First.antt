-- ===== src/Pipeline/First.antt =====
-- The word that the program finds, from the profiles that the profiling stage left.
use wdedup.Prelude.{
  ℕ, ◌<◌, ◌≤◌, refl, arith, ◌≡◌, ◌≢◌, sym, ap, ◌∙◌, Bool, List, [], none, map, ◌⊎◌, inl, inr,
}
use wdedup.Errors.{Result, ok, fault, ◌>>=◌}
use wdedup.Word.{Word}
use wdedup.Profile.{Profile, ProfileItem}
use wdedup.Profile.Status.{once, status}
use wdedup.ProfileFile.Stale.{stale, status-stale, All-stale, Ascending-stale}
use wdedup.Find.{find_first}
use wdedup.Find.First.{find_first-IsFirst}
use wdedup.Config.{Config, open_input}
use wdedup.Plan.{Planner}
use wdedup.Plan.Valid.{Valid}
use wdedup.Merge.Rounds.{open_input-Stored, Entry, Stored, Inv, total, space}
use wdedup.File.{buffer_size}
use wdedup.ProfileFile.Size.{table_size}
use wdedup.Merge.Stage.{wmerge-Merges}
use wdedup.Pipeline.{find_stage, merge_and_find}

-- A word is the answer for some profiles: it is empty and no word occurs once in all of them together,
-- or it occurs once, and none that occurs once does so at a smaller offset.
abbrev pub Answers : Word → List Entry → Type 0
Answers r live =
    ((r ≡ []) × ((v : Word) (o : ℕ) → total v live ≢ once o))
    ⊎ ((r ≢ [])
        × (off : ℕ) × (total r live ≡ once off)
        × ((v : Word) (o : ℕ) → total v live ≡ once o → off ≤ o))

find_stage_read :
    (c : Config) (root : ℕ) (p : Profile)
    → open_input root c ≡ ok p
    → find_stage root c ≡ find_first p
unfolding find_stage
find_stage_read c root p h = rw h refl

find_stage_fault : (c : Config) (root : ℕ) → open_input root c ≡ fault → find_stage root c ≡ fault
unfolding find_stage
find_stage_fault c root h = rw h refl

find_stage-Answers :
    (c : Config) (root : ℕ) (p : Profile) (live : List Entry)
    → Stored c (root, p)
    → ((w : Word) → status w p ≡ total w live)
    → ((r : Word) × (find_stage root c ≡ ok r) × Answers r live)
      ⊎ ((find_stage root c ≡ fault) × (buffer_size < table_size p))
find_stage-Answers c root p live s e = elim (open_input-Stored c (root, p) s) [
  | inr (cut, large) ↦ inr (find_stage_fault c root cut, large)
  | inl opened ↦
      let says = λ (w : Word). sym (status-stale w 0 p ∙ e w) in
      let (r, off, runs, first) =
        find_first-IsFirst (stale 0 p) (Ascending-stale 0 p s.ascending)
          (All-stale (λ (i : ProfileItem). i.word ≢ []) 0 p (λ i h. h) (λ i j h k. h) s.worded) in
      inl (
        r,
        find_stage_read c root (stale 0 p) opened ∙ runs,
        elim first [
          | inl (z, nothing) ↦ inl (z, λ v o h. nothing v o (sym (says v) ∙ h))
          | inr (n, (found, before)) ↦
              inr (n, off, says r ∙ found, λ v o h. before v o (sym (says v) ∙ h))
        ],
      )
]

-- The merge stage and the find stage, started with their recovery behind them, profiles `live` in the
-- working directory, and plans that lead from them to the root, return, whatever the garbage
-- collection; the result is the empty word if no word occurs once in all the profiles
-- together, and otherwise a word that does, at the smallest offset of those that do. Only if the
-- profiles take more than 4096 bytes together, the stages may write out of bounds instead, at
-- a word that is cut by the end of a buffer.
pub merge_and_find-Answers :
    (planner : Planner) (disable_gc : Bool) (c : Config) (put : ℕ) (live : List Entry)
    → c.ilog ≡ none
    → planner.cursor ≡ 0
    → Inv c put live
    → Valid put (map (λ e. e.0) live) planner.plans planner.root
    → ((r : Word) × (merge_and_find planner disable_gc c ≡ ok r) × Answers r live)
      ⊎ ((merge_and_find planner disable_gc c ≡ fault) × (buffer_size < space live))
unfolding merge_and_find
merge_and_find-Answers planner disable_gc c put live i k inv v =
    let then_find = λ (m : Result (ℕ × Config)). m >>= λ (x : ℕ × Config). find_stage x.0 x.1 in
    elim (wmerge-Merges planner disable_gc c put live i k inv v) [
      | inr (faults, large) ↦ inr (ap then_find faults, large)
      | inl (c', p, runs, stored, small, says) ↦
          elim (find_stage-Answers c' planner.root p live stored says) [
            | inr (faults, large) ↦ inr (ap then_find runs ∙ faults, omega (arith, large, small))
            | inl (r, finds, answers) ↦ inl (r, ap then_find runs ∙ finds, answers)
          ]
    ]
