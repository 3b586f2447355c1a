-- ===== src/Dynamic/Trees.antt =====
-- What the dynamic planner looks for: a binary tree over neighbouring segments that is cheapest to merge.
use wdedup.Prelude.{
  ℕ, zero, suc, ◌+◌, ◌-◌, ◌*◌, ◌<◌, ◌≤◌, ◌≡◌, sym, ap, ap₂, ◌∙◌, subst, List, [], ◌∷◌, arith,
  length,
}
use wdedup.Plan.{ProfileSegment}
use wdedup.Dynamic.{DpItem, DpTable}
use wdedup.Dynamic.Table.{HasLeaves}

-- The size of the segment at a place, 0 behind the last.
abbrev pub size_at : List ProfileSegment → ℕ → ℕ
size_at [] i = 0
size_at (s ∷ segments) zero = s.size
size_at (s ∷ segments) (suc i) = size_at segments i

-- The sizes of `count` segments from a place on.
abbrev pub size_sum : List ProfileSegment → ℕ → ℕ → ℕ
size_sum segments zero i = 0
size_sum segments (suc count) i = size_at segments i + size_sum segments count (suc i)

-- A way to merge the segments from one place to another.
pub data MergeTree : ℕ → ℕ → Type 0 where
  leaf : (i : ℕ) → MergeTree i i
  node : {l k r : ℕ} → MergeTree l k → MergeTree (suc k) r → MergeTree l r

pub tree_le : {l r : ℕ} → MergeTree l r → l ≤ r
tree_le (leaf i) = omega arith
tree_le (node t u) = omega (arith, tree_le t, tree_le u)

module _ (segments : List ProfileSegment) where
  -- The size of the profile that it gives, and what is read and written on the way.
  abbrev pub tree_size : {l r : ℕ} → MergeTree l r → ℕ
  tree_size (leaf i) = size_at segments i
  tree_size (node t u) = tree_size t + tree_size u

  abbrev pub tree_cost : {l r : ℕ} → MergeTree l r → ℕ
  tree_cost (leaf i) = 0
  tree_cost (node t u) = tree_cost t + tree_cost u + (tree_size t + tree_size u) * 2

  pub size_sum_add :
      (a b i : ℕ)
      → size_sum segments (a + b) i ≡ size_sum segments a i + size_sum segments b (i + a)
  size_sum_add zero b i =
      ap₂ (size_sum segments) {x = zero + b} {y = b} {u = i} {v = i + zero} (omega arith)
        (omega arith)
      ∙ omega arith
  size_sum_add (suc a) b i =
      ap (λ n. size_sum segments n i) {x = suc a + b} {y = suc (a + b)} (omega arith)
      ∙ ap (λ n. size_at segments i + n)
          (size_sum_add a b (suc i)
            ∙ ap (λ n. size_sum segments a (suc i) + size_sum segments b n) {x = suc i + a}
                {y = i + suc a} (omega arith))
      ∙ omega arith

  pub tree_size_lem : {l r : ℕ} (t : MergeTree l r) → tree_size t ≡ size_sum segments (suc r - l) l
  tree_size_lem (leaf i) =
      ap (λ n. n) {x = size_at segments i} {y = size_sum segments 1 i} (omega arith)
      ∙ ap (λ n. size_sum segments n i) {x = 1} {y = suc i - i} (omega arith)
  tree_size_lem (node {l} {k} {r} t u) =
      let a = tree_le t in
      let b = tree_le u in
      ap₂ ◌+◌ (tree_size_lem t) (
        tree_size_lem u
        ∙ ap (size_sum segments (suc r - suc k)) {x = suc k} {y = l + (suc k - l)}
            (omega (arith, a)))
      ∙ sym (size_sum_add (suc k - l) (suc r - suc k) l)
      ∙ ap (λ n. size_sum segments n l) {x = (suc k - l) + (suc r - suc k)} {y = suc r - l}
          (omega (arith, a, b))

-- The diagonal of the table.
pub leaf_lem :
    (dp : DpTable) (segments : List ProfileSegment) (lo i : ℕ)
    → HasLeaves dp lo segments
    → i < length segments
    → ((dp (lo + i) (lo + i)).length ≡ size_at segments i) × ((dp (lo + i) (lo + i)).cost ≡ 0)
leaf_lem dp [] lo i h l = absurd (omega arith)
leaf_lem dp (s ∷ segments) lo zero (h, hs) l =
    subst (λ k. ((dp k k).length ≡ s.size) × ((dp k k).cost ≡ 0)) {x = lo} (omega arith)
      (ap (λ (i : DpItem). i.length) h, ap (λ (i : DpItem). i.cost) h)
leaf_lem dp (s ∷ segments) lo (suc i) (h, hs) l =
    subst (λ k. ((dp k k).length ≡ size_at segments i) × ((dp k k).cost ≡ 0)) {x = (lo + 1) + i}
      (omega arith) (leaf_lem dp segments (lo + 1) i hs (omega (arith, l)))
