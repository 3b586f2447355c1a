-- ===== src/Dynamic/Optimal.antt =====
-- The dynamic planner's table gives the least cost over all trees, where the sizes are small enough for its
-- sums not to wrap round.
use wdedup.Prelude.{
  ℕ, zero, suc, ◌+◌, ◌-◌, ◌*◌, ◌^◌, ◌%◌, ◌<◌, ◌≤◌, ◌≡◌, ◌≢◌, refl, sym, ap, ap₂, ◌∙◌, subst, List,
  [], ◌∷◌, arith, length, ℕ_discrete,
}
use native.Mathlib.Nat.{add-mul, mul-le-mul_right, mod-eq_of_lt}
use wdedup.Plan.{ProfileSegment}
use wdedup.Dynamic.{DpTable, cost_func, fill_table}
use wdedup.Dynamic.Table.{HasLeaves, IsBest, fill_table_lem}
use wdedup.Dynamic.Trees.{
  size_at, size_sum, MergeTree, leaf, node, tree_cost, size_sum_add, tree_le, tree_size_lem,
  leaf_lem,
}

-- Twice the sizes of all segments: what one layer of merging reads and writes at most.
abbrev pub layer_cost : List ProfileSegment → ℕ
layer_cost segments = size_sum segments (length segments) 0 * 2

module _ (segments : List ProfileSegment) (dp : DpTable)
    (small : length segments * layer_cost segments < 2 ^ 64) (leaves : HasLeaves dp 0 segments)
    (best : (a b : ℕ) → a < b → b < length segments → IsBest dp a b b (dp a b)) where
  abbrev n : ℕ
  n = length segments

  abbrev k : ℕ
  k = layer_cost segments

  part_le : (count i : ℕ) → i + count ≤ n → size_sum segments count i ≤ size_sum segments n 0
  part_le count i h =
      let rest = n - (i + count) in
      let a = size_sum_add segments i (count + rest) 0 in
      let b = size_sum_add segments count rest i in
      let c = ap (size_sum segments (count + rest)) {x = 0 + i} {y = i} (omega arith) in
      let e = ap (λ m. size_sum segments m 0) {x = i + (count + rest)} {y = n} (omega (arith, h)) in
      omega (arith, a, b, c, e)

  fits_size : (count i : ℕ) → i + count ≤ n → 0 < n → size_sum segments count i < 2 ^ 64
  fits_size count i h p =
      omega (arith, part_le count i h, small, mul-le-mul_right {m = 1} {n = n} k (omega (arith, p)))

  -- Two neighbours together.
  joined :
      (l s r : ℕ)
      → l ≤ s
      → s < r
      → size_sum segments (suc s - l) l + size_sum segments (suc r - (s + 1)) (s + 1)
        ≡ size_sum segments (suc r - l) l
  joined l s r a b =
      let e =
        ap (size_sum segments (suc r - (s + 1))) {x = l + (suc s - l)} {y = s + 1}
          (omega (arith, a)) in
      let f =
        ap (λ m. size_sum segments m l) {x = (suc s - l) + (suc r - (s + 1))} {y = suc r - l}
          (omega (arith, a, b)) in
      omega (arith, size_sum_add segments (suc s - l) (suc r - (s + 1)) l, e, f)

  -- The layers on both sides of a cut, and the one of the cut.
  layers_add : (l s r : ℕ) → l ≤ s → s < r → (s - l) * k + (r - (s + 1)) * k + k ≡ (r - l) * k
  layers_add l s r a b =
      let e =
        ap (λ m. m * k) {x = ((s - l) + (r - (s + 1))) + 1} {y = r - l} (omega (arith, a, b)) in
      omega (arith, add-mul (s - l) (r - (s + 1)) k, add-mul ((s - l) + (r - (s + 1))) 1 k, e)

  -- What the table holds for an interval.
  abbrev Span : ℕ → ℕ → Type 0
  Span l r = ((dp l r).length ≡ size_sum segments (suc r - l) l) × ((dp l r).cost ≤ (r - l) * k)

  -- The cost of a cut, exactly.
  cost_exact :
      (l s r : ℕ)
      → l ≤ s
      → s < r
      → r < n
      → Span l s
      → Span (s + 1) r
      → (cost_func (dp l s) (dp (s + 1) r)
          ≡ (dp l s).cost + (dp (s + 1) r).cost + ((dp l s).length + (dp (s + 1) r).length) * 2)
        × (cost_func (dp l s) (dp (s + 1) r) ≤ (r - l) * k)
  unfolding cost_func
  cost_exact l s r a b c (lenl, costl) (lenr, costr) =
      let t = (dp l s).cost + (dp (s + 1) r).cost + ((dp l s).length + (dp (s + 1) r).length) * 2 in
      let bound : t ≤ (r - l) * k = omega (
        arith,
        costl,
        costr,
        layers_add l s r a b,
        joined l s r a b,
        lenl,
        lenr,
        part_le (suc r - l) l (omega (arith, a, b, c)),
      ) in
      let e : t % 2 ^ 64 ≡ t =
        mod-eq_of_lt (
          omega (arith, bound, small, mul-le-mul_right {m = r - l} {n = n} k (omega (arith, c)))) in
      (e, omega (arith, e, bound))

  leaf_cost : (l : ℕ) → l < n → (dp l l).cost ≡ 0
  leaf_cost l h =
      ap (λ i. (dp i i).cost) {x = l} {y = 0 + l} (omega arith)
      ∙ (leaf_lem dp segments 0 l leaves h).1

  Span-at : (l : ℕ) → l < n → Span l l
  Span-at l h =
      let (e, z) = leaf_lem dp segments 0 l leaves h in
      let (e', z') =
        subst (λ i. ((dp i i).length ≡ size_at segments l) × ((dp i i).cost ≡ 0)) {x = 0 + l}
          {y = l} (omega arith) (e, z) in
      (
        e' ∙ omega arith ∙ ap (λ m. size_sum segments m l) {x = 1} {y = suc l - l} (omega arith),
        omega (arith, z'),
      )

  spans : (fuel l r : ℕ) → r - l < fuel → l ≤ r → r < n → Span l r
  spans zero l r f h i = absurd (omega arith)
  spans (suc fuel) l r f h i = elim (ℕ_discrete l r) [
    | yes e ↦ subst (Span l) e (Span-at l (omega (arith, h, i)))
    | no ne ↦
        let lt : l < r = omega (arith, h, ne) in
        let b = best l r lt i in
        let s = (dp l r).separation in
        let left =
          spans fuel l s (omega (arith, b.from, b.before, f)) b.from (omega (arith, b.before, i)) in
        let right =
          spans fuel (s + 1) r (omega (arith, b.from, b.before, f)) (omega (arith, b.before)) i in
        let first = Span-at l (omega (arith, lt, i)) in
        let rest = spans fuel (l + 1) r (omega (arith, lt, f)) (omega (arith, lt)) i in
        let whole : (dp l l).length + (dp (l + 1) r).length ≡ size_sum segments (suc r - l) l =
          omega (arith, first.0, rest.0, joined l l r (omega arith) lt) in
        (
          b.total
              ∙ ap (λ m. m % 2 ^ 64) whole
              ∙ mod-eq_of_lt (fits_size (suc r - l) l (omega (arith, lt, i)) (omega (arith, i))),
          omega (arith, b.cost, (cost_exact l s r b.from b.before i left right).1),
        )
  ]

  span : (l r : ℕ) → l ≤ r → r < n → Span l r
  span l r h i = spans (suc (r - l)) l r (omega arith) h i

  cut_cost :
      (l s r : ℕ)
      → l ≤ s
      → s < r
      → r < n
      → cost_func (dp l s) (dp (s + 1) r)
        ≡ (dp l s).cost
          + (dp (s + 1) r).cost
          + (size_sum segments (suc s - l) l + size_sum segments (suc r - suc s) (suc s)) * 2
  cut_cost l s r a b c =
      let left = span l s a (omega (arith, b, c)) in
      let right = span (s + 1) r (omega (arith, b)) c in
      let e =
        ap₂ (size_sum segments) {x = suc r - (s + 1)} {y = suc r - suc s} {u = s + 1} {v = suc s}
          (omega arith) (omega arith) in
      omega (arith, (cost_exact l s r a b c left right).0, left.0, right.0, e)

  -- No tree is cheaper than the table says.
  least_cost : {l r : ℕ} (t : MergeTree l r) → r < n → (dp l r).cost ≤ tree_cost segments t
  least_cost (leaf i) h = omega (arith, leaf_cost i h)
  least_cost (node {l} {k} {r} t u) h =
      let a = tree_le t in
      let b = tree_le u in
      let e = ap (λ m. (dp m r).cost) {x = k + 1} {y = suc k} (omega arith) in
      omega (
        arith,
        (best l r (omega (arith, a, b)) h).least k a b,
        cut_cost l k r a b h,
        e,
        least_cost t (omega (arith, b, h)),
        least_cost u h,
        tree_size_lem segments t,
        tree_size_lem segments u,
      )

  -- One is as cheap.
  cheapest :
      (fuel l r : ℕ)
      → r - l < fuel
      → l ≤ r
      → r < n
      → (t : MergeTree l r) × (tree_cost segments t ≡ (dp l r).cost)
  cheapest zero l r f h i = absurd (omega arith)
  cheapest (suc fuel) l r f h i = elim (ℕ_discrete l r) [
    | yes e ↦
        subst (λ m. (t : MergeTree l m) × (tree_cost segments t ≡ (dp l m).cost)) e
          (leaf l, sym (leaf_cost l (omega (arith, h, i))))
    | no ne ↦
        let lt : l < r = omega (arith, h, ne) in
        let b = best l r lt i in
        let s = (dp l r).separation in
        let (t, costl) =
          cheapest fuel l s (omega (arith, b.from, b.before, f)) b.from
            (omega (arith, b.before, i)) in
        let (u, costr) = cheapest fuel (suc s) r (omega (arith, b.from, b.before, f)) b.before i in
        let e = ap (λ m. (dp m r).cost) {x = s + 1} {y = suc s} (omega arith) in
        (
          node t u,
          omega (
            arith,
            costl,
            costr,
            b.cost,
            cut_cost l s r b.from b.before i,
            e,
            tree_size_lem segments t,
            tree_size_lem segments u,
          ),
        )
  ]

-- Given at least one segment whose sizes are so small that twice their sum times their number fits a
-- `size_t`, whatever the memory of the table held before: the cost that the table has for all of
-- them is that of one way to merge neighbours, and no way to merge neighbours has a smaller cost.
pub fill_table-cheapest :
    (segments : List ProfileSegment) (fresh : DpTable)
    → segments ≢ []
    → length segments * layer_cost segments < 2 ^ 64
    → (let cost = (fill_table segments fresh 0 (length segments - 1)).cost in
        ((t : MergeTree 0 (length segments - 1)) × (tree_cost segments t ≡ cost))
        × ((t : MergeTree 0 (length segments - 1)) → cost ≤ tree_cost segments t))
fill_table-cheapest [] fresh h small = absurd (h refl)
fill_table-cheapest (s ∷ segments) fresh h small =
    let all = s ∷ segments in
    let r = length all - 1 in
    let (leaves, best) = fill_table_lem all fresh h in
    (
      cheapest all (fill_table all fresh) small leaves best (suc r) 0 r (omega arith) (omega arith)
          (omega arith),
      λ t. least_cost all (fill_table all fresh) small leaves best t (omega arith),
    )
