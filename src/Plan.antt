-- ===== src/Plan.antt =====
-- include/wdedup.hpp, and the part that include/impl/wmpsimple.hpp, include/impl/wmpdp.hpp and their sources share:
-- segments, plans, and a planner that hands out the plans that its constructor made.
pub mod Valid
use wdedup.Prelude.{ℕ, suc, ◌+◌, Bool, true, false, List, Option, none, some, get_elem?}

-- `ProfileSegment`; `stop` is its field `end`.
pub record ProfileSegment : Type 0 where
  pub id : ℕ
  pub start : ℕ
  pub stop : ℕ
  pub size : ℕ

-- `MergePlan`.
pub record MergePlan : Type 0 where
  pub id : ℕ
  pub left : ℕ
  pub right : ℕ

-- The state of `MergePlannerSimple` and of `MergePlannerDP`.
pub record Planner : Type 0 where
  pub plans : List MergePlan
  pub cursor : ℕ
  pub root : ℕ

-- `pop`: the next plan, or the root in a plan whose other fields stay.
unfoldable pub pop : Planner → MergePlan → Bool × MergePlan × Planner
pop planner plan = elim (get_elem? planner.plans planner.cursor) [
  | some next ↦ (true, next, record planner { cursor = planner.cursor + 1 })
  | none ↦ (false, record plan { id = planner.root }, planner)
]
