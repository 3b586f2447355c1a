-- ===== src/Pipeline.antt =====
-- src/main.cpp: the stages behind the profiling, in their order.
pub mod First
use wdedup.Prelude.{ℕ, Bool}
use wdedup.Errors.{Result, ok, ◌>>=◌}
use wdedup.Word.{Word}
use wdedup.Find.{find_first}
use wdedup.Config.{Config, open_input}
use wdedup.Plan.{Planner}
use wdedup.Merge.{wmerge}

-- `wfindfirst` on the profile of the root, with `openSingularInput`.
unfoldable pub find_stage : ℕ → Config → Result Word
find_stage root c = do singular ← open_input root c; find_first singular

-- The merge stage and the find stage, with a planner that was constructed.
unfoldable pub merge_and_find : Planner → Bool → Config → Result Word
unfolding find_stage
merge_and_find planner disable_gc c = do
  (root, c') ← wmerge planner disable_gc c
  find_stage root c'
