-- ===== src/Plan/Valid.antt =====
-- What a sequence of plans must be: each merges two profiles that are there and makes a new one,
-- and at the end the root alone is left.
use wdedup.Prelude.{ℕ, suc, ◌≡◌, List, [], ◌∷◌, Pick, map, length}
use wdedup.Errors.{Result, ok}
use wdedup.Plan.{MergePlan, ProfileSegment, Planner}

-- From the profiles `live`, in any order, where `put` is the next number to give, the plans lead to
-- `root`.
abbrev pub Valid : ℕ → List ℕ → List MergePlan → ℕ → Type 0
Valid put live [] root = live ≡ root ∷ []
Valid put live (plan ∷ plans) root =
    (r : List ℕ) × (s : List ℕ) × (t : List ℕ) × Pick plan.left live r
    × Pick plan.right r s
    × Pick put t s
    × (plan.id ≡ put)
    × Valid (suc put) t plans root

-- The number of a segment.
abbrev pub segment_id : ProfileSegment → ℕ
segment_id s = s.id

-- What a planner's constructor promises for its segments, where `put` is above all their numbers: it
-- returns, with nothing handed out, plans that are valid and one fewer than the segments.
abbrev pub PlansFor : ℕ → List ProfileSegment → Result Planner → Type 0
PlansFor put segments r =
    (planner : Planner) × (r ≡ ok planner)
    × (planner.cursor ≡ 0)
    × Valid put (map segment_id segments) planner.plans planner.root
    × (suc (length planner.plans) ≡ length segments)
