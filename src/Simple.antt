-- ===== src/Simple.antt =====
-- include/impl/wmpsimple.hpp, src/wmpsimple.cpp: the planner that merges the nodes of a queue in pairs, layer by
-- layer. Node numbers count segments and merges, and do not reach the size of a `size_t`.
pub mod Layers
pub mod Plans
use wdedup.Prelude.{
  true, false, ℕ, zero, suc, ◌+◌, ◌-◌, ◌*◌, List, [], ◌∷◌, ◌++◌, map, leb, ◌==◌, if◌then◌else◌,
  length,
}
use wdedup.Errors.{Result, ok, fault, stuck, ◌>>=◌}
use wdedup.Config.{Config, log_corrupt}
use wdedup.Plan.{ProfileSegment, MergePlan, Planner}

-- The first number above those of the segments.
unfoldable pub next_put : ℕ → List ProfileSegment → ℕ
next_put put [] = put
next_put put (s ∷ segments) = next_put (if leb put s.id then s.id + 1 else put) segments

-- The end of a layer, with `left` in hand (0 for none) and `count` nodes taken: the queue to go on with,
-- or nothing if one node was all.
pub data LayerEnd : Type 0 where
  last_layer : LayerEnd
  next_layer : List ℕ → LayerEnd

end_layer : ℕ → ℕ → List ℕ → Result LayerEnd
end_layer left count nodes =
    if count == 0
    then fault
    else if count == 1
    then ok last_layer
    else ok (next_layer ((if left == 0 then nodes else nodes ++ left ∷ []) ++ 0 ∷ []))

-- The loop that takes nodes off the queue in pairs. `front` of an empty queue is undefined.
unfoldable pub layers : ℕ → List ℕ → ℕ → ℕ → List MergePlan → Result (List MergePlan)
unfolding end_layer
layers zero nodes put count plans = stuck
layers (suc fuel) [] put count plans = fault
layers (suc fuel) (left ∷ nodes) put count plans = elim (left == 0) [
  | true ↦ do
    e ← end_layer left count nodes
    elim e [ last_layer ↦ ok plans | next_layer nodes' ↦ layers fuel nodes' put 0 plans ]
  | false ↦ elim nodes [
    | [] ↦ fault
    | right ∷ rest ↦ elim (right == 0) [
      | true ↦ do
        e ← end_layer left (count + 1) rest
        elim e [ last_layer ↦ ok plans | next_layer nodes' ↦ layers fuel nodes' put 0 plans ]
      | false ↦
          layers fuel (rest ++ (put + 1) ∷ []) (put + 1) (count + 2)
            (plans ++ record { id = put; left = left - 1; right = right - 1 } ∷ [])
    ]
  ]
]

-- The number of the last plan.
abbrev pub last_id : List MergePlan → Result ℕ
last_id [] = fault
last_id (plan ∷ []) = ok plan.id
last_id (plan ∷ next ∷ plans) = last_id (next ∷ plans)

-- `MergePlannerSimple::MergePlannerSimple`. Two rounds for a node are enough.
unfoldable pub simple_planner : Config → List ProfileSegment → Result Planner
unfolding layers next_put
simple_planner c [] = log_corrupt c
simple_planner c (s ∷ []) = ok (record { plans = []; cursor = 0; root = s.id })
simple_planner c (s ∷ t ∷ segments) = do
  let ids = map (λ (u : ProfileSegment). u.id) (s ∷ t ∷ segments)
  plans ← layers (2 * length ids + 1) (map suc ids ++ 0 ∷ []) (next_put 0 (s ∷ t ∷ segments)) 0 []
  root ← last_id plans
  ok (record { plans = plans; cursor = 0; root = root })
