-- ===== src/Merge.antt =====
-- src/wmerge.cpp: the merge stage, its log and its recovery.
pub mod Rounds
pub mod Keep
pub mod Stage
pub mod Logged
pub mod Run
pub mod Resume
pub mod Restart
pub mod Partial
use wdedup.Prelude.{
  ℕ, zero, suc, ◌+◌, Bool, true, false, not, ◌||◌, List, [], ◌∷◌, ◌++◌, Option, none, some, ◌==◌,
  if◌then◌else◌, length,
}
use wdedup.Errors.{Result, ok, err, stuck, ◌>>=◌}
use wdedup.Serial.{put_char, put_size, get_char, get_size}
use wdedup.Profile.{Profile}
use wdedup.Tables.{merge_into}
use wdedup.Config.{
  Config, log_file, has_recovery_done, recovery_done, log_corrupt, write_log, open_input,
  put_output, remove,
}
use wdedup.Plan.{MergePlan, Planner}
use wdedup.Plan

-- `WMergeLog::merge` and `WMergeLog::end`.
abbrev pub merge_mark : ℕ
merge_mark = b'm'

abbrev pub end_mark : ℕ
end_mark = b'x'

-- The log entry of an executed plan.
unfoldable pub merge_entry : MergePlan → ℕ → List ℕ
merge_entry plan size =
    put_char merge_mark
    ++ put_size plan.left
    ++ put_size plan.right
    ++ put_size plan.id
    ++ put_size size

-- Garbage collection of the merged profiles.
unfoldable pub collect : Bool → ℕ → ℕ → Config → Config
collect disable_gc left right c = if disable_gc then c else remove right (remove left c)

-- One round of the merging loop.
unfoldable pub merge_one : Bool → MergePlan → Config → Result Config
unfolding collect
merge_one disable_gc plan c = do
  left ← open_input plan.left c
  right ← open_input plan.right c
  let (size, c') = put_output plan.id (merge_into left right []) c
  c'' ← write_log (merge_entry plan size) c'
  ok (collect disable_gc plan.left plan.right c'')

-- The merging loop, and the end of the stage.
unfoldable pub merge_loop : Bool → ℕ → Planner → MergePlan → Config → Result (ℕ × Config)
unfolding Plan.pop
merge_loop disable_gc zero planner plan c = stuck
merge_loop disable_gc (suc fuel) planner plan c =
    let (more, plan', planner') = Plan.pop planner plan in
    elim more [
      | true ↦ do c' ← merge_one disable_gc plan' c; merge_loop disable_gc fuel planner' plan' c'
      | false ↦ do c' ← write_log (put_char end_mark) c; ok (plan'.id, c')
    ]

-- How the recovery ends: the stage was finished before, or it goes on from here.
pub data Recovery : Type 0 where
  finished : ℕ → Config → Recovery
  resumed : Planner → MergePlan → Config → Recovery

-- The entry of a merge that was logged: it must be the plan that the planner gives.
recover_one :
    Bool → Planner → MergePlan → List ℕ → Config → Result (Planner × MergePlan × List ℕ × Config)
recover_one disable_gc planner plan s c = do
  (left, s1) ← get_size (log_file c) s
  (right, s2) ← get_size (log_file c) s1
  (out, s3) ← get_size (log_file c) s2
  (size, s4) ← get_size (log_file c) s3
  let (more, plan', planner') = Plan.pop planner plan
  if not more || not (plan'.left == left) || not (plan'.right == right) || not (plan'.id == out)
      then log_corrupt c
      else ok (planner', plan', s4, collect disable_gc left right c)

-- The recovery loop. Every entry takes a byte of the log at least.
unfoldable pub recover : Bool → ℕ → Planner → MergePlan → List ℕ → Config → Result Recovery
unfolding recover_one
recover disable_gc zero planner plan s c = stuck
recover disable_gc (suc fuel) planner plan [] c =
    ok (resumed planner plan (record c { ilog = some [] }))
recover disable_gc (suc fuel) planner plan (b ∷ s) c = elim (b == end_mark) [
  | true ↦
      let (more, plan', planner') = Plan.pop planner plan in
      if more then log_corrupt c else ok (finished plan'.id (record c { ilog = some s }))
  | false ↦ elim (b == merge_mark) [
    | true ↦ do
      (planner', plan', s', c') ← recover_one disable_gc planner plan s c
      recover disable_gc fuel planner' plan' s' c'
    | false ↦ log_corrupt c
  ]
]

-- `wmerge` behind its recovery. The plans that are left bound the rounds.
after_recovery : Bool → Recovery → Result (ℕ × Config)
after_recovery disable_gc (finished root c) = ok (root, c)
after_recovery disable_gc (resumed planner plan c) =
    merge_loop disable_gc (length planner.plans + 1) planner plan (recovery_done c)

-- `wmerge`. The plan that `pop` fills in starts out with no meaning.
unfoldable pub wmerge : Planner → Bool → Config → Result (ℕ × Config)
unfolding after_recovery recover merge_loop
wmerge planner disable_gc c =
    let blank : MergePlan = record { id = 0; left = 0; right = 0 } in
    elim c.ilog [
      | none ↦ after_recovery disable_gc (resumed planner blank c)
      | some s ↦ do
        r ← recover disable_gc (length s + 1) planner blank s c
        after_recovery disable_gc r
    ]
