-- ===== src/Simple/Plans.antt =====
-- The constructor of the layered planner gives valid plans.
use wdedup.Prelude.{
  Pick, here, there, length-map, ℕ, suc, ◌+◌, ◌*◌, ◌<◌, ◌≤◌, ◌≡◌, ◌≢◌, inl, refl, ap, ◌∙◌, List, [],
  ◌∷◌, arith, map, length, All,
}
use wdedup.Errors.{Result, ok, ◌>>=◌}
use wdedup.Config.{Config}
use wdedup.Plan.{MergePlan, Planner, ProfileSegment}
use wdedup.Plan.Valid.{Valid, PlansFor, segment_id}
use wdedup.Simple.{next_put, last_id, simple_planner}
use wdedup.Simple.Layers.{Plans, layers-Plans}

-- `put` never falls, and ends above every segment.
next_put-le : (segments : List ProfileSegment) (put : ℕ) → put ≤ next_put put segments
unfolding next_put
next_put-le [] put = omega arith
next_put-le (s ∷ segments) put =
    ground (arith, next_put-le segments (s.id + 1), next_put-le segments put)

-- The first number that the planners give is above the numbers of all segments.
pub next_put_above :
    (segments : List ProfileSegment) (put : ℕ) → All (λ s. s.id < next_put put segments) segments
unfolding next_put
next_put_above [] put = tt
next_put_above (s ∷ segments) put = (
  ground (arith, next_put-le segments (s.id + 1), next_put-le segments put),
  next_put_above segments _,
)

Pick-ne-nil : {x : ℕ} {l r : List ℕ} → Pick x l r → l ≢ []
Pick-ne-nil here e = cc
Pick-ne-nil (there p) e = cc

-- Out of one element only that one can be picked.
Pick-one : {x y : ℕ} {l r : List ℕ} → Pick x l r → l ≡ y ∷ [] → x ≡ y
Pick-one here e = cc
Pick-one (there p) e = absurd (Pick-ne-nil p (cc))

-- The number of the last plan is the root.
last_id-Valid :
    (put : ℕ) (live : List ℕ) (plan : MergePlan) (plans : List MergePlan) (root : ℕ)
    → Valid put live (plan ∷ plans) root
    → last_id (plan ∷ plans) ≡ ok root
last_id-Valid put live plan [] root (r, s, t, a, b, k, new, v) = ap ok (new ∙ Pick-one k v)
last_id-Valid put live plan (next ∷ plans) root (r, s, t, a, b, k, new, v) =
    last_id-Valid (suc put) t next plans root v

-- The end of the constructor, behind the loop.
abbrev pub finish : Result (List MergePlan) → Result Planner
finish r = do
  plans ← r
  root ← last_id plans
  ok (record { plans = plans; cursor = 0; root = root })

pub finish-PlansFor :
    (put : ℕ) (segments : List ProfileSegment) (r : Result (List MergePlan))
    → 2 ≤ length (map segment_id segments)
    → Plans [] put (map segment_id segments) r
    → PlansFor put segments (finish r)
finish-PlansFor put segments r two ([], root, runs, v, n) = absurd (omega arith)
finish-PlansFor put segments r two (plan ∷ plans, root, runs, v, n) = (
  record { plans = plan ∷ plans; cursor = 0; root = root },
  ap finish runs ∙ ap ended (last_id-Valid put _ plan plans root v),
  refl,
  v,
  n ∙ length-map segments segment_id,
)
  where
    ended : Result ℕ → Result Planner
    ended m = m >>= λ id. ok (record { plans = plan ∷ plans; cursor = 0; root = id })

-- Given at least one segment, the constructor returns plans that are valid from the segments' numbers,
-- one fewer than the segments, numbered from the first number above all of theirs.
pub simple_planner-PlansFor :
    (c : Config) (segments : List ProfileSegment)
    → segments ≢ []
    → PlansFor (next_put 0 segments) segments (simple_planner c segments)
unfolding simple_planner
simple_planner-PlansFor c [] h = absurd (h refl)
simple_planner-PlansFor c (s ∷ []) h =
    (record { plans = []; cursor = 0; root = s.id }, refl, refl, refl, refl)
simple_planner-PlansFor c (s ∷ t ∷ segments) h =
    let ids = map segment_id (s ∷ t ∷ segments) in
    finish-PlansFor (next_put 0 (s ∷ t ∷ segments)) (s ∷ t ∷ segments) _ (omega arith) (
      layers-Plans (2 * length ids + 1) ids [] (next_put 0 (s ∷ t ∷ segments)) 0 [] (ground arith)
        (inl (refl, refl, λ e. cc)))
