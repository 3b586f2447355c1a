-- ===== src/Simple/Layers.antt =====
-- The loop over the layers ends, and its plans are valid.
use mathlib.Core.List.{map-append}
use native.Mathlib.Numerals.{add-one}
use wdedup.Prelude.{
  min, ℕ, zero, suc, ◌+◌, ◌-◌, ◌*◌, ◌<◌, ◌≤◌, ◌≡◌, ◌≢◌, ◌⊎◌, inl, inr, refl, sym, ap, ◌∙◌, List, [],
  ◌∷◌, ◌++◌, arith, map, Pick, Pick-middle, length, length-append, subst, append_assoc, append-nil,
}
use wdedup.Errors.{Result, ok}
use wdedup.Plan.{MergePlan}
use wdedup.Plan.Valid.{Valid}
use wdedup.Simple.{layers}

-- The queue within a layer: nodes of this layer, the separator, nodes of the next.
abbrev pub queue : List ℕ → List ℕ → List ℕ
queue cur nxt = map suc cur ++ 0 ∷ map suc nxt

-- The plan that a step of the loop makes.
abbrev plan_of : ℕ → ℕ → ℕ → MergePlan
plan_of put a b = record { id = put; left = suc a - 1; right = suc b - 1 }

queue-append :
    (cur nxt : List ℕ) (put : ℕ) → queue cur nxt ++ (put + 1) ∷ [] ≡ queue cur (nxt ++ put ∷ [])
queue-append cur nxt put =
    append_assoc (map suc cur) (0 ∷ map suc nxt) ((put + 1) ∷ [])
    ∙ ap (λ t. map suc cur ++ 0 ∷ t)
        (ap (λ n. map suc nxt ++ n ∷ []) (add-one put) ∙ sym (map-append suc nxt (put ∷ [])))

module _ (fuel put count : ℕ) (plans : List MergePlan) where
  step_pair :
      (a b : ℕ) (cur nxt : List ℕ)
      → layers (suc fuel) (queue (a ∷ b ∷ cur) nxt) put count plans
        ≡ layers fuel
            (queue cur (nxt ++ put ∷ []))
            (put + 1)
            (count + 2)
            (plans ++ plan_of put a b ∷ [])
  unfolding layers
  step_pair a b cur nxt = ground (arith, queue-append cur nxt put)

  step_even :
      (nxt : List ℕ)
      → 2 ≤ count
      → layers (suc fuel) (queue [] nxt) put count plans ≡ layers fuel (queue nxt []) put 0 plans
  unfolding layers
  step_even nxt h = ground arith

  step_odd :
      (a : ℕ) (nxt : List ℕ)
      → 2 ≤ count
      → layers (suc fuel) (queue (a ∷ []) nxt) put count plans
        ≡ layers fuel (queue (nxt ++ a ∷ []) []) put 0 plans
  unfolding layers
  step_odd a nxt h = ground (arith, map-append suc nxt (a ∷ []))

step_last :
    (fuel put a : ℕ) (plans : List MergePlan)
    → layers (suc fuel) (queue (a ∷ []) []) put 0 plans ≡ ok plans
unfolding layers
step_last fuel put a plans = ground arith

-- Where the loop can stand: at the start of a layer, or behind one pair of it at least.
abbrev pub Phase : ℕ → List ℕ → List ℕ → Type 0
Phase count cur nxt = ((count ≡ 0) × (nxt ≡ []) × (cur ≢ [])) ⊎ ((2 ≤ count) × (nxt ≢ []))

-- The rounds that are left at most.
abbrev pub rounds : ℕ → List ℕ → List ℕ → ℕ
rounds count cur nxt = 2 * (length cur + length nxt) + min 1 count

-- The loop ends with plans that lead from the nodes of the queue to one root.
abbrev pub Plans : List MergePlan → ℕ → List ℕ → Result (List MergePlan) → Type 0
Plans plans put live r =
    (new : List MergePlan) × (root : ℕ) × (r ≡ ok (plans ++ new))
    × Valid put live new root
    × (suc (length new) ≡ length live)

append_one-ne-nil : (l : List ℕ) (a : ℕ) → l ++ a ∷ [] ≢ []
append_one-ne-nil [] a e = cc
append_one-ne-nil (x ∷ l) a e = cc

last-Plans :
    (fuel put a : ℕ) (plans : List MergePlan)
    → Plans plans put (a ∷ []) (layers (suc fuel) (queue (a ∷ []) []) put 0 plans)
last-Plans fuel put a plans =
    ([], a, step_last fuel put a plans ∙ ap ok (sym (append-nil plans)), refl, refl)

-- The plan of a pair, before the plans that the rest of the loop makes.
pair-Plans :
    (a b put : ℕ) (cur nxt : List ℕ) (plans : List MergePlan) (r : Result (List MergePlan))
    → Plans (plans ++ plan_of put a b ∷ []) (put + 1) ((nxt ++ put ∷ []) ++ cur) r
    → Plans plans put (nxt ++ a ∷ b ∷ cur) r
pair-Plans a b put cur nxt plans r (new, root, runs, v, n) = (
  plan_of put a b ∷ new,
  root,
  runs ∙ ap ok (append_assoc plans (plan_of put a b ∷ []) new),
  (
    nxt ++ b ∷ cur,
    nxt ++ cur,
    (nxt ++ put ∷ []) ++ cur,
    subst (λ j. Pick j (nxt ++ a ∷ b ∷ cur) (nxt ++ b ∷ cur)) {x = a} (omega arith)
        (Pick-middle nxt a (b ∷ cur)),
    subst (λ j. Pick j (nxt ++ b ∷ cur) (nxt ++ cur)) {x = b} (omega arith) (Pick-middle nxt b cur),
    subst (λ l. Pick put l (nxt ++ cur)) (sym (append_assoc nxt (put ∷ []) cur))
        (Pick-middle nxt put cur),
    refl,
    subst (λ j. Valid j ((nxt ++ put ∷ []) ++ cur) new root) (add-one put) v,
  ),
  omega (
    arith,
    n,
    length-append (nxt ++ put ∷ []) cur,
    length-append nxt (put ∷ []),
    length-append nxt (a ∷ b ∷ cur),
  ),
)

pub layers-Plans :
    (fuel : ℕ) (cur nxt : List ℕ) (put count : ℕ) (plans : List MergePlan)
    → rounds count cur nxt < fuel
    → Phase count cur nxt
    → Plans plans put (nxt ++ cur) (layers fuel (queue cur nxt) put count plans)
layers-Plans zero cur nxt put count plans f h = absurd (omega arith)
layers-Plans (suc fuel) [] nxt put count plans f (inl (c, n, e)) = absurd (e refl)
layers-Plans (suc fuel) [] nxt put count plans f (inr (c, n)) =
    subst (Plans plans put (nxt ++ [])) (sym (step_even fuel put count plans nxt c)) (
      subst (λ l. Plans plans put l (layers fuel (queue nxt []) put 0 plans)) (sym (append-nil nxt))
        (layers-Plans fuel nxt [] put 0 plans (omega arith) (inl (refl, refl, n))))
layers-Plans (suc fuel) (a ∷ []) nxt put count plans f (inl (c, n, e)) =
    rw (c, n) (last-Plans fuel put a plans)
layers-Plans (suc fuel) (a ∷ []) nxt put count plans f (inr (c, n)) =
    subst (Plans plans put (nxt ++ a ∷ [])) (sym (step_odd fuel put count plans a nxt c)) (
      layers-Plans fuel (nxt ++ a ∷ []) [] put 0 plans (omega (arith, length-append nxt (a ∷ [])))
        (inl (refl, refl, append_one-ne-nil nxt a)))
layers-Plans (suc fuel) (a ∷ b ∷ cur) nxt put count plans f h =
    subst (Plans plans put (nxt ++ a ∷ b ∷ cur)) (sym (step_pair fuel put count plans a b cur nxt))
      (pair-Plans a b put cur nxt plans _ (
        layers-Plans fuel cur (nxt ++ put ∷ []) (put + 1) (count + 2)
          (plans ++ plan_of put a b ∷ []) (ground (arith, length-append nxt (put ∷ [])))
          (inr (omega arith, append_one-ne-nil nxt put))))
