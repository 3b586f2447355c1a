-- ===== src/Dynamic/Table.antt =====
-- What the table of the dynamic planner holds: for all neighbours the place where merging them is cheapest.
use wdedup.Prelude.{
  ℕ, zero, suc, ◌+◌, ◌-◌, ◌^◌, ◌%◌, ◌<◌, ◌≤◌, ◌≡◌, ◌≢◌, refl, sym, ap, ap₂, ◌∙◌, subst, Bool, true,
  false, ◌&&◌, List, [], ◌∷◌, ◌⊎◌, inl, inr, arith, ltb, ◌==◌, if◌then◌else◌, length, Bool-cases,
  ltb→lt, dec_lt, ℕ_discrete,
}
use wdedup.Plan.{ProfileSegment}
use wdedup.Dynamic.{
  DpItem, DpTable, set_dp, cost_func, init_diagonal, separate, cell, fill_stride, fill_strides,
  fill_table,
}

pub set_dp_same : (i j : ℕ) (item : DpItem) (dp : DpTable) → set_dp i j item dp i j ≡ item
unfolding set_dp
set_dp_same i j item dp =
    ap (λ (b : Bool). if b then item else dp i j) {x = (i == i) && (j == j)} {y = true}
      (ground arith)

pub set_dp_other :
    (i j : ℕ) (item : DpItem) (dp : DpTable) (a b : ℕ)
    → (a ≢ i) ⊎ (b ≢ j)
    → set_dp i j item dp a b ≡ dp a b
unfolding set_dp
set_dp_other i j item dp a b h =
    ap (λ (c : Bool). if c then item else dp a b) {x = (a == i) && (b == j)} {y = false}
      (ground (arith, h))

-- The item is one for `[j, m]` that is the cheapest of those that are separated before `k`.
pub record IsBest (dp : DpTable) (j m k : ℕ) (item : DpItem) : Type 0 where
  pub from : j ≤ item.separation
  pub before : item.separation < k
  pub cost : item.cost ≡ cost_func (dp j item.separation) (dp (item.separation + 1) m)
  pub least : (i : ℕ) → j ≤ i → i < k → item.cost ≤ cost_func (dp j i) (dp (i + 1) m)
  pub total : item.length ≡ ((dp j j).length + (dp (j + 1) m).length) % 2 ^ 64

ltb_ge : (a b : ℕ) → ltb a b ≡ false → b ≤ a
ltb_ge a b h = ground (arith, h)

separate-IsBest :
    (count j k m : ℕ) (dp : DpTable) (item : DpItem)
    → k + count ≡ m
    → IsBest dp j m k item
    → IsBest dp j m m (separate count j k m dp item)
unfolding separate
separate-IsBest zero j k m dp item e b =
    subst (λ n. IsBest dp j m n item) {x = k} (omega (arith, e)) b
separate-IsBest (suc count) j k m dp item e b =
    let newcost = cost_func (dp j k) (dp (k + 1) m) in
    separate-IsBest count j (k + 1) m dp _ (omega (arith, e))
      (elim (Bool-cases (ltb newcost item.cost)) [
        | inl y ↦
            subst (IsBest dp j m (k + 1)) {x = record item { cost = newcost; separation = k }}
              (rw y refl)
              (record {
                from = omega (arith, b.from, b.before);
                before = omega arith;
                cost = refl;
                least = λ i h l. elim (ℕ_discrete i k) [
                  | yes s ↦
                      subst (λ a. newcost ≤ cost_func (dp j a) (dp (a + 1) m)) (sym s) (omega arith)
                  | no n ↦
                      omega (arith, b.least i h (omega (arith, n, l)), ltb→lt newcost item.cost y)
                ];
                total = b.total;
              })
        | inr n ↦ subst (IsBest dp j m (k + 1)) {x = item} (rw n refl) (record {
          from = b.from;
          before = omega (arith, b.before);
          cost = b.cost;
          least = λ i h l. elim (ℕ_discrete i k) [
            | yes s ↦
                subst (λ a. item.cost ≤ cost_func (dp j a) (dp (a + 1) m)) (sym s)
                  (ltb_ge newcost item.cost n)
            | no n ↦ b.least i h (omega (arith, n, l))
          ];
          total = b.total;
        })
      ])

-- The item that the code works out for `[j, m]`.
cell-IsBest : (j m : ℕ) (dp : DpTable) → j < m → IsBest dp j m m (cell j m dp)
unfolding cell
cell-IsBest j m dp h = separate-IsBest (m - (j + 1)) j (j + 1) m dp _ (omega (arith, h)) (record {
  from = omega arith;
  before = omega arith;
  cost = refl;
  least = λ i a b.
      subst (λ k. cost_func (dp j j) (dp (j + 1) m) ≤ cost_func (dp j k) (dp (k + 1) m)) {x = j}
        (omega (arith, a, b)) (omega arith);
  total = refl;
})

-- A new item of a stride changes none of the items that one of this stride or a smaller one was made of.
IsBest-keep :
    (i stride : ℕ) (new : DpItem) (dp : DpTable) (a b : ℕ) (item : DpItem)
    → b ≤ a + stride
    → a < b
    → IsBest dp a b b item
    → IsBest (set_dp i (i + stride) new dp) a b b item
IsBest-keep i stride new dp a b item h l best =
    let left = λ (k : ℕ) (x : k < b).
      set_dp_other i (i + stride) new dp a k
        (elim (ℕ_discrete a i) [ yes y ↦ inr (λ z. omega (arith, y, z, x)) | no n ↦ inl n ]) in
    let right = λ (k : ℕ) (x : a ≤ k).
      set_dp_other i (i + stride) new dp (k + 1) b (elim (ℕ_discrete (k + 1) i) [
        | yes y ↦ inr (λ z. omega (arith, y, z, x))
        | no n ↦ inl n
      ]) in
    record {
      from = best.from;
      before = best.before;
      cost =
          best.cost
          ∙ ap₂ cost_func (sym (left item.separation best.before))
              (sym (right item.separation best.from));
      least = λ k x y.
          subst (λ n. item.cost ≤ n) (ap₂ cost_func (sym (left k y)) (sym (right k x)))
            (best.least k x y);
      total =
          best.total
          ∙ ap₂ (λ (x y : DpItem). (x.length + y.length) % 2 ^ 64) (sym (left a l))
              (sym (right a (omega arith)));
    }

-- The items of smaller strides are there, and those of this one before `j`.
pub IsFilled : DpTable → ℕ → ℕ → ℕ → Type 0
IsFilled dp n stride j =
    (a b : ℕ)
    → a < b
    → b < n
    → (b < a + stride) ⊎ ((b ≡ a + stride) × (a < j))
    → IsBest dp a b b (dp a b)

kept-IsBest :
    (i stride : ℕ) (new : DpItem) (dp : DpTable) (a b : ℕ)
    → b ≤ a + stride
    → a < b
    → (a ≢ i) ⊎ (b ≢ i + stride)
    → IsBest dp a b b (dp a b)
    → IsBest (set_dp i (i + stride) new dp) a b b (set_dp i (i + stride) new dp a b)
kept-IsBest i stride new dp a b h l other best =
    subst (IsBest (set_dp i (i + stride) new dp) a b b)
      (sym (set_dp_other i (i + stride) new dp a b other))
      (IsBest-keep i stride new dp a b (dp a b) h l best)

new-IsBest :
    (j stride : ℕ) (dp : DpTable)
    → 0 < stride
    → (let dp' = set_dp j (j + stride) (cell j (j + stride) dp) dp in
        IsBest dp' j (j + stride) (j + stride) (dp' j (j + stride)))
new-IsBest j stride dp pos =
    let m = j + stride in
    let new = cell j m dp in
    subst (IsBest (set_dp j m new dp) j m m) (sym (set_dp_same j m new dp)) (
      IsBest-keep j stride new dp j m new (omega arith) (omega (arith, pos))
        (cell-IsBest j m dp (omega (arith, pos))))

step-IsFilled :
    (j stride n : ℕ) (dp : DpTable)
    → 0 < stride
    → IsFilled dp n stride j
    → IsFilled (set_dp j (j + stride) (cell j (j + stride) dp) dp) n stride (j + 1)
unfolding IsFilled
step-IsFilled j stride n dp pos f a b x y h =
    let dp' = set_dp j (j + stride) (cell j (j + stride) dp) dp in
    let keep = kept-IsBest j stride (cell j (j + stride) dp) dp a b in
    elim (ℕ_discrete a j) [
      | yes p ↦ elim (ℕ_discrete b (j + stride)) [
        | yes q ↦
            subst (λ k. IsBest dp' k b b (dp' k b)) (sym p)
              (subst (λ k. IsBest dp' j k k (dp' j k)) (sym q) (new-IsBest j stride dp pos))
        | no q ↦ elim h [
          | inl l ↦ keep (omega (arith, l)) x (inr q) (f a b x y (inl l))
          | inr (e, l) ↦ absurd (q (omega (arith, e, p)))
        ]
      ]
      | no p ↦ elim h [
        | inl l ↦ keep (omega (arith, l)) x (inl p) (f a b x y (inl l))
        | inr (e, l) ↦ keep (omega (arith, e)) x (inl p) (f a b x y (inr (e, omega (arith, l, p))))
      ]
    ]

fill_stride-IsFilled :
    (count j stride n : ℕ) (dp : DpTable)
    → 0 < stride
    → IsFilled dp n stride j
    → IsFilled (fill_stride count j stride dp) n stride (j + count)
unfolding fill_stride
fill_stride-IsFilled zero j stride n dp pos f = subst (IsFilled dp n stride) {x = j} (omega arith) f
fill_stride-IsFilled (suc count) j stride n dp pos f =
    subst (IsFilled (fill_stride (suc count) j stride dp) n stride) {x = (j + 1) + count}
      (omega arith)
      (fill_stride-IsFilled count (j + 1) stride n _ pos (step-IsFilled j stride n dp pos f))

fill_strides-IsFilled :
    (count stride n : ℕ) (dp : DpTable)
    → 0 < stride
    → IsFilled dp n stride 0
    → IsFilled (fill_strides count stride n dp) n (stride + count) 0
unfolding fill_strides IsFilled
fill_strides-IsFilled zero stride n dp pos f =
    subst (λ k. IsFilled dp n k 0) {x = stride} (omega arith) f
fill_strides-IsFilled (suc count) stride n dp pos f =
    let filled = fill_stride-IsFilled (n - stride) 0 stride n dp pos f in
    subst (λ k. IsFilled (fill_strides (suc count) stride n dp) n k 0) {x = (stride + 1) + count}
      (omega arith)
      (fill_strides-IsFilled count (stride + 1) n _ (omega arith) (λ a b x y h.
        filled a b x y (elim h [
          | inl l ↦ elim (dec_lt b (a + stride)) [
            | yes z ↦ inl z
            | no z ↦ inr (omega (arith, l, z), omega (arith, l, z, y))
          ]
          | inr (e, l) ↦ absurd (omega (arith, l))
        ])))

-- The item of a segment.
abbrev pub leaf_item : ProfileSegment → DpItem
leaf_item s = record { length = s.size; cost = 0; separation = 0; id = s.id + 1 }

-- The diagonal has the segments, from `i` on.
abbrev pub HasLeaves : DpTable → ℕ → List ProfileSegment → Type 0
HasLeaves dp i [] = Unit {0}
HasLeaves dp i (s ∷ segments) = (dp i i ≡ leaf_item s) × HasLeaves dp (i + 1) segments

HasLeaves-same :
    (segments : List ProfileSegment) (dp dp' : DpTable) (i : ℕ)
    → ((a : ℕ) → dp' a a ≡ dp a a)
    → HasLeaves dp i segments
    → HasLeaves dp' i segments
HasLeaves-same [] dp dp' i e h = tt
HasLeaves-same (s ∷ segments) dp dp' i e (h, hs) =
    (e i ∙ h, HasLeaves-same segments dp dp' (i + 1) e hs)

init_before :
    (segments : List ProfileSegment) (i a : ℕ) (dp : DpTable)
    → a < i
    → init_diagonal i segments dp a a ≡ dp a a
unfolding init_diagonal
init_before [] i a dp h = refl
init_before (s ∷ segments) i a dp h =
    init_before segments (i + 1) a _ (omega (arith, h))
    ∙ set_dp_other i i _ dp a a (inl (λ e. omega (arith, e, h)))

init-HasLeaves :
    (segments : List ProfileSegment) (i : ℕ) (dp : DpTable)
    → HasLeaves (init_diagonal i segments dp) i segments
unfolding init_diagonal
init-HasLeaves [] i dp = tt
init-HasLeaves (s ∷ segments) i dp = (
  init_before segments (i + 1) i _ (omega arith) ∙ set_dp_same i i _ dp,
  init-HasLeaves segments (i + 1) _,
)

fill_stride_diagonal :
    (count j stride a : ℕ) (dp : DpTable) → 0 < stride → fill_stride count j stride dp a a ≡ dp a a
unfolding fill_stride
fill_stride_diagonal zero j stride a dp h = refl
fill_stride_diagonal (suc count) j stride a dp h =
    fill_stride_diagonal count (j + 1) stride a _ h
    ∙ set_dp_other j (j + stride) _ dp a a
        (elim (ℕ_discrete a j) [ yes e ↦ inr (λ z. omega (arith, e, z, h)) | no n ↦ inl n ])

fill_strides_diagonal :
    (count stride n a : ℕ) (dp : DpTable) → 0 < stride → fill_strides count stride n dp a a ≡ dp a a
unfolding fill_strides
fill_strides_diagonal zero stride n a dp h = refl
fill_strides_diagonal (suc count) stride n a dp h =
    fill_strides_diagonal count (stride + 1) n a _ (omega arith)
    ∙ fill_stride_diagonal (n - stride) 0 stride a dp h

-- The table for at least one segment: the diagonal has the segments, and every other item is the best.
pub fill_table_lem :
    (segments : List ProfileSegment) (fresh : DpTable)
    → segments ≢ []
    → HasLeaves (fill_table segments fresh) 0 segments
      × ((a b : ℕ)
          → a < b
          → b < length segments
          → IsBest (fill_table segments fresh) a b b (fill_table segments fresh a b))
unfolding fill_table IsFilled
fill_table_lem [] fresh h = absurd (h refl)
fill_table_lem (s ∷ segments) fresh h =
    let n = length (s ∷ segments) in
    let start = init_diagonal 0 (s ∷ segments) fresh in
    (
      HasLeaves-same (s ∷ segments) start (fill_table (s ∷ segments) fresh) 0
          (λ a. fill_strides_diagonal (n - 1) 1 n a start (omega arith))
          (init-HasLeaves (s ∷ segments) 0 fresh),
      λ a b x y.
          fill_strides-IsFilled (n - 1) 1 n start (omega arith)
            (λ a' b' x' y' h'.
              absurd (elim h' [ inl l ↦ omega (arith, x', l) | inr (e, l) ↦ omega (arith, l) ]))
            a b x y (inl (omega (arith, y))),
    )
