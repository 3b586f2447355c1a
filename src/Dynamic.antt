-- ===== src/Dynamic.antt =====
-- include/impl/wmpdp.hpp, src/wmpdp.cpp: the planner that `main` selects. A table of the least cost of merging
-- neighbours gives the places where to separate them, and the plans are read off it from the leaves up.
-- Node numbers count segments and merges, and do not reach the size of a `size_t`; lengths and costs wrap round.
pub mod Table
pub mod Frontier
pub mod Numbers
pub mod Plans
pub mod Trees
pub mod Optimal
use wdedup.Prelude.{
  ℕ, zero, suc, ◌+◌, ◌-◌, ◌*◌, ◌^◌, ◌%◌, Bool, true, false, ◌&&◌, ◌||◌, List, [], ◌∷◌, ◌++◌, ltb,
  ◌==◌, if◌then◌else◌, length,
}
use wdedup.Errors.{Result, ok, fault, stuck, ◌>>=◌}
use wdedup.Config.{Config, log_corrupt}
use wdedup.Plan.{ProfileSegment, MergePlan, Planner}
use wdedup.Simple.{next_put, last_id}

-- `dpItem`.
pub record DpItem : Type 0 where
  pub length : ℕ
  pub cost : ℕ
  pub separation : ℕ
  pub id : ℕ

-- `dp`, by row and column.
abbrev pub DpTable : Type 0
DpTable = ℕ → ℕ → DpItem

unfoldable pub set_dp : ℕ → ℕ → DpItem → DpTable → DpTable
set_dp i j item dp = λ a b. if (a == i) && (b == j) then item else dp a b

-- `costFunc`.
unfoldable pub cost_func : DpItem → DpItem → ℕ
cost_func l r = (l.cost + r.cost + (l.length + r.length) * 2) % 2 ^ 64

-- The diagonal.
unfoldable pub init_diagonal : ℕ → List ProfileSegment → DpTable → DpTable
init_diagonal i [] dp = dp
init_diagonal i (s ∷ segments) dp =
    init_diagonal (i + 1) segments
      (set_dp i i (record { length = s.size; cost = 0; separation = 0; id = s.id + 1 }) dp)

-- The loop over the places `k` where `[j, m]` can be separated.
unfoldable pub separate : ℕ → ℕ → ℕ → ℕ → DpTable → DpItem → DpItem
separate zero j k m dp item = item
separate (suc count) j k m dp item =
    let newcost = cost_func (dp j k) (dp (k + 1) m) in
    separate count j (k + 1) m dp
      (if ltb newcost item.cost then record item { cost = newcost; separation = k } else item)

-- The item of `[j, m]`.
unfoldable pub cell : ℕ → ℕ → DpTable → DpItem
unfolding separate
cell j m dp = separate (m - (j + 1)) j (j + 1) m dp (record {
  length = ((dp j j).length + (dp (j + 1) m).length) % 2 ^ 64;
  cost = cost_func (dp j j) (dp (j + 1) m);
  separation = j;
  id = 0;
})

-- The items of a stride, and the strides.
unfoldable pub fill_stride : ℕ → ℕ → ℕ → DpTable → DpTable
unfolding cell
fill_stride zero j stride dp = dp
fill_stride (suc count) j stride dp =
    fill_stride count (j + 1) stride (set_dp j (j + stride) (cell j (j + stride) dp) dp)

unfoldable pub fill_strides : ℕ → ℕ → ℕ → DpTable → DpTable
unfolding fill_stride
fill_strides zero stride n dp = dp
fill_strides (suc count) stride n dp =
    fill_strides count (stride + 1) n (fill_stride (n - stride) 0 stride dp)

-- The whole table, over what `new dpItem[n]` left in it.
unfoldable pub fill_table : List ProfileSegment → DpTable → DpTable
unfolding fill_strides init_diagonal
fill_table segments fresh =
    let n = length segments in fill_strides (n - 1) 1 n (init_diagonal 0 segments fresh)

-- The parts of `[l, r]` that are still to be separated.
unfoldable pub parts : DpTable → ℕ → ℕ → List (ℕ × ℕ)
parts dp l r =
    let s = (dp l r).separation in
    (if ltb l s then (l, s) ∷ [] else []) ++ (if ltb (s + 1) r then (s + 1, r) ∷ [] else [])

-- The queue, from the items that are still to be visited on.
unfoldable pub retrace : ℕ → DpTable → List (ℕ × ℕ) → Result (List (ℕ × ℕ))
unfolding parts
retrace zero dp queue = stuck
retrace (suc fuel) dp [] = ok []
retrace (suc fuel) dp ((l, r) ∷ queue) = elim (ltb l r) [
  | true ↦ do rest ← retrace fuel dp (queue ++ parts dp l r); ok ((l, r) ∷ rest)
  | false ↦ fault
]

-- The variables of the loop that gives the numbers.
pub record Numbering : Type 0 where
  pub dp : DpTable
  pub put : ℕ
  pub plans : List MergePlan

-- A round of it.
unfoldable pub number : ℕ × ℕ → Numbering → Result Numbering
unfolding set_dp
number (l, r) v =
    let item = v.dp l r in
    let left = (v.dp l item.separation).id in
    let right = (v.dp (item.separation + 1) r).id in
    if (left == 0) || (right == 0)
    then fault
    else ok (record {
      dp = set_dp l r (record item { id = v.put + 1 }) v.dp;
      put = v.put + 1;
      plans = v.plans ++ record { id = v.put; left = left - 1; right = right - 1 } ∷ [];
    })

-- The loop over the queue, from its end.
unfoldable pub number_all : List (ℕ × ℕ) → Numbering → Result Numbering
unfolding number
number_all [] v = ok v
number_all (q ∷ queue) v = do v' ← number_all queue v; number q v'

-- `MergePlannerDP::MergePlannerDP`. A round for each plan and one for the end are enough for the queue.
unfoldable pub dp_planner : DpTable → Config → List ProfileSegment → Result Planner
unfolding fill_table retrace number_all
dp_planner fresh c [] = log_corrupt c
dp_planner fresh c (s ∷ []) = ok (record { plans = []; cursor = 0; root = s.id })
dp_planner fresh c (s ∷ t ∷ segments) = do
  let n = length (s ∷ t ∷ segments)
  let dp = fill_table (s ∷ t ∷ segments) fresh
  queue ← retrace n dp ((0, n - 1) ∷ [])
  v ← number_all queue (record { dp = dp; put = next_put 0 (s ∷ t ∷ segments); plans = [] })
  root ← last_id v.plans
  ok (record { plans = v.plans; cursor = 0; root = root })
