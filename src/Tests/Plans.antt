-- ===== src/Tests/Plans.antt =====
-- Plans for three small segments.
use wdedup.Prelude.{◌≡◌, ◌≤◌, refl, [], ◌∷◌, arith}
use wdedup.Errors.{ok}
use wdedup.Simple.{next_put}
use wdedup.Plan.Valid.{PlansFor}
use wdedup.Dynamic.{DpTable, cost_func, fill_table, dp_planner}
use wdedup.Dynamic.Plans.{dp_planner-PlansFor}
use wdedup.Dynamic.Trees.{MergeTree, tree_cost}
use wdedup.Dynamic.Optimal.{fill_table-cheapest}
use wdedup.Tests.{halves, three_segments}

-- Memory that holds anything.
abbrev dirty : DpTable
dirty = λ i j. record { length = 7; cost = i; separation = j; id = 9 }

-- The sizes are 20, 30 and 10: the last two are merged first.
dp_planner_three :
    dp_planner dirty halves three_segments
    ≡ ok (record {
      plans = record { id = 3; left = 1; right = 2 } ∷ record { id = 4; left = 0; right = 3 } ∷ [];
      cursor = 0;
      root = 4;
    })
unfolding dp_planner cost_func next_put
dp_planner_three = refl

dp_planner-PlansFor_example :
    PlansFor (next_put 0 three_segments) three_segments (dp_planner dirty halves three_segments)
dp_planner-PlansFor_example = dp_planner-PlansFor dirty halves three_segments (λ e. cc)

fill_table-cheapest_example :
    ((t : MergeTree 0 2) × (tree_cost three_segments t
        ≡ (fill_table three_segments dirty 0 2).cost))
    × ((t : MergeTree 0 2)
        → (fill_table three_segments dirty 0 2).cost ≤ tree_cost three_segments t)
fill_table-cheapest_example = fill_table-cheapest three_segments dirty (λ e. cc) (omega arith)
