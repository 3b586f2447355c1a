-- ===== src/Dynamic/Numbers.antt =====
-- The plans that the dynamic planner reads off its queue, from the end: they lead back from the single
-- places to the whole.
use wdedup.Prelude.{
  ℕ, suc, ◌+◌, ◌-◌, ◌<◌, ◌≤◌, ◌≡◌, ◌≢◌, refl, sym, ap, ap₂, ◌∙◌, subst, Bool, false, ◌||◌, List, [],
  ◌∷◌, ◌++◌, inl, inr, arith, ℕ_discrete, ◌==◌, if◌then◌else◌, length, map, All, All-mono, Pick,
  Pick-middle, length-append,
}
use wdedup.Errors.{Result, ok, fault, ◌>>=◌}
use wdedup.Plan.{ProfileSegment, MergePlan}
use wdedup.Plan.Valid.{Valid, segment_id}
use wdedup.Dynamic.{DpItem, DpTable, set_dp, Numbering, number, number_all}
use wdedup.Dynamic.Table.{HasLeaves, set_dp_same, set_dp_other}
use wdedup.Dynamic.Frontier.{Interval, Covers, Expands}

-- From the profiles `live` the plans lead to the profiles `out`.
abbrev pub Leads : ℕ → List ℕ → List MergePlan → List ℕ → Type 0
Leads put live [] out = live ≡ out
Leads put live (plan ∷ plans) out =
    (r : List ℕ) × (s : List ℕ) × (t : List ℕ) × Pick plan.left live r
    × Pick plan.right r s
    × Pick put t s
    × (plan.id ≡ put)
    × Leads (suc put) t plans out

pub Leads-Valid :
    (plans : List MergePlan) (put : ℕ) (live : List ℕ) (root : ℕ)
    → Leads put live plans (root ∷ [])
    → Valid put live plans root
Leads-Valid [] put live root h = h
Leads-Valid (plan ∷ plans) put live root (r, s, t, a, b, k, e, h) =
    (r, s, t, a, b, k, e, Leads-Valid plans (suc put) t root h)

-- One plan more, which merges two neighbours.
Leads-merge :
    (plans : List MergePlan) (put : ℕ) (live a b : List ℕ) (left right : ℕ)
    → Leads put live plans (a ++ left ∷ right ∷ b)
    → Leads put live
        (plans ++ record { id = put + length plans; left = left; right = right } ∷ [])
        (a ++ (put + length plans) ∷ b)
Leads-merge [] put live a b left right h = (
  a ++ right ∷ b,
  a ++ b,
  a ++ put ∷ b,
  subst (λ l. Pick left l (a ++ right ∷ b)) (sym h) (Pick-middle a left (right ∷ b)),
  Pick-middle a right b,
  Pick-middle a put b,
  omega arith,
  ap (λ n. a ++ n ∷ b) {x = put} (omega arith),
)
Leads-merge (plan ∷ plans) put live a b left right (r, s, t, p, q, k, e, h) = (
  r,
  s,
  t,
  p,
  q,
  k,
  e,
  subst
      (λ n.
        Leads (suc put) t (plans ++ record { id = n; left = left; right = right } ∷ [])
          (a ++ n ∷ b))
      {x = suc put + length plans} (omega arith) (Leads-merge plans (suc put) t a b left right h),
)

-- The number that the table gives an interval.
abbrev pub id_of : DpTable → Interval → ℕ
id_of dp q = (dp q.0 q.1).id

-- Where the numbers of the intervals are one above those of the profiles.
abbrev Numbers : DpTable → List Interval → List ℕ → Type 0
Numbers dp f live = map (id_of dp) f ≡ map suc live

-- Around two intervals of the list.
split-Numbers :
    (dp : DpTable) (a : List Interval) (x y : Interval) (b : List Interval) (live : List ℕ)
    → Numbers dp (a ++ x ∷ y ∷ b) live
    → (la : List ℕ) × (left : ℕ) × (right : ℕ) × (lb : List ℕ) × (live ≡ la ++ left ∷ right ∷ lb)
      × Numbers dp a la
      × (id_of dp x ≡ suc left)
      × (id_of dp y ≡ suc right)
      × Numbers dp b lb
split-Numbers dp [] x y b [] e = absurd (cc)
split-Numbers dp [] x y b (m ∷ []) e = absurd (cc)
split-Numbers dp [] x y b (m ∷ n ∷ live) e = ([], m, n, live, refl, refl, cc, cc, cc)
split-Numbers dp (z ∷ a) x y b [] e = absurd (cc)
split-Numbers dp (z ∷ a) x y b (m ∷ live) e =
    let (la, left, right, lb, parts, ea, ex, ey, eb) = split-Numbers dp a x y b live (cc) in
    (m ∷ la, left, right, lb, ap (◌∷◌ m) parts, cc, ex, ey, eb)

-- The cut of an interval keeps the cover.
Covers-cut :
    (lo hi l s r : ℕ) (a b : List Interval)
    → l ≤ s
    → s < r
    → Covers lo hi (a ++ (l, r) ∷ b)
    → Covers lo hi (a ++ (l, s) ∷ (s + 1, r) ∷ b)
Covers-cut lo hi l s r [] b h k (e, m, c) = (e, h, (omega arith, omega (arith, k), c))
Covers-cut lo hi l s r ((x, y) ∷ a) b h k (e, m, c) = (e, m, Covers-cut (suc y) hi l s r a b h k c)

Covers-after : (lo hi : ℕ) (f : List Interval) → Covers lo hi f → All (λ (q : Interval). lo ≤ q.0) f
Covers-after lo hi [] c = tt
Covers-after lo hi ((x, y) ∷ f) (e, m, c) =
    (omega (arith, e), All-mono _ _ f (λ q h. omega (arith, h, e, m)) (Covers-after (suc y) hi f c))

Covers-le : (lo hi : ℕ) (f : List Interval) → Covers lo hi f → lo ≤ hi
Covers-le lo hi [] c = omega (arith, c)
Covers-le lo hi ((x, y) ∷ f) (e, m, c) = omega (arith, e, m, Covers-le (suc y) hi f c)

-- The other intervals start elsewhere.
Covers-apart :
    (lo hi l r : ℕ) (a b : List Interval)
    → Covers lo hi (a ++ (l, r) ∷ b)
    → (lo ≤ l) × All (λ (q : Interval). q.0 ≢ l) a × All (λ (q : Interval). q.0 ≢ l) b
Covers-apart lo hi l r [] b (e, m, c) = (
  omega (arith, e),
  tt,
  All-mono _ _ b (λ q h k. omega (arith, h, k, m)) (Covers-after (suc r) hi b c),
)
Covers-apart lo hi l r ((x, y) ∷ a) b (e, m, c) =
    let (h, na, nb) = Covers-apart (suc y) hi l r a b c in
    (omega (arith, h, e, m), ((λ k. omega (arith, k, h, e, m)), na), nb)

-- A change elsewhere keeps the numbers.
Numbers-keep :
    (l r : ℕ) (item : DpItem) (dp : DpTable) (f : List Interval) (live : List ℕ)
    → All (λ (q : Interval). q.0 ≢ l) f
    → Numbers dp f live
    → Numbers (set_dp l r item dp) f live
Numbers-keep l r item dp [] live n e = e
Numbers-keep l r item dp (q ∷ f) [] n e = absurd (cc)
Numbers-keep l r item dp (q ∷ f) (m ∷ live) (n, ns) e =
    ap₂ (λ x y. x ∷ y) (ap (λ (i : DpItem). i.id) (set_dp_other l r item dp q.0 q.1 (inl n)) ∙ cc)
      (Numbers-keep l r item dp f live ns (cc))

Numbers-join :
    (dp : DpTable) (a : List Interval) (q : Interval) (b : List Interval) (la : List ℕ) (m : ℕ)
    (lb : List ℕ)
    → Numbers dp a la
    → id_of dp q ≡ suc m
    → Numbers dp b lb
    → Numbers dp (a ++ q ∷ b) (la ++ m ∷ lb)
Numbers-join dp [] q b [] m lb ea e eb = ap₂ (λ x y. x ∷ y) e eb
Numbers-join dp [] q b (n ∷ la) m lb ea e eb = absurd (cc)
Numbers-join dp (x ∷ a) q b [] m lb ea e eb = absurd (cc)
Numbers-join dp (x ∷ a) q b (n ∷ la) m lb ea e eb =
    ap₂ (λ x y. x ∷ y) (cc) (Numbers-join dp a q b la m lb (cc) e eb)

-- A round of the loop, where the two parts have their numbers.
number_lem :
    (l r s left right : ℕ) (v : Numbering)
    → (v.dp l r).separation ≡ s
    → id_of v.dp (l, s) ≡ suc left
    → id_of v.dp (s + 1, r) ≡ suc right
    → number (l, r) v
      ≡ ok (record {
        dp = set_dp l r (record (v.dp l r) { id = v.put + 1 }) v.dp;
        put = v.put + 1;
        plans = v.plans ++ record { id = v.put; left = left; right = right } ∷ [];
      })
unfolding number
number_lem l r s left right v e p q =
    ap₂
      (λ (x y : ℕ).
        if (x == 0) || (y == 0)
        then fault
        else ok (record {
          dp = set_dp l r (record (v.dp l r) { id = v.put + 1 }) v.dp;
          put = v.put + 1;
          plans = v.plans ++ record { id = v.put; left = x - 1; right = y - 1 } ∷ [];
        }))
      (ap (λ k. (v.dp l k).id) e ∙ p) (ap (λ k. (v.dp (k + 1) r).id) e ∙ q)
    ∙ ap
        (λ (b : Bool).
          if b
          then fault
          else ok (record {
            dp = set_dp l r (record (v.dp l r) { id = v.put + 1 }) v.dp;
            put = v.put + 1;
            plans =
                v.plans ++ record { id = v.put; left = suc left - 1; right = suc right - 1 } ∷ [];
          }))
        {x = (suc left == 0) || (suc right == 0)} {y = false} (ground arith)
    ∙ ap₂
        (λ (x y : ℕ). ok (record {
          dp = set_dp l r (record (v.dp l r) { id = v.put + 1 }) v.dp;
          put = v.put + 1;
          plans = v.plans ++ record { id = v.put; left = x; right = y } ∷ [];
        }))
        {x = suc left - 1} {y = left} {u = suc right - 1} {v = right} (omega arith) (omega arith)

-- The single places have the numbers of the segments.
singles-Numbers :
    (segments : List ProfileSegment) (f : List Interval) (lo : ℕ) (dp : DpTable)
    → Covers lo (lo + length segments) f
    → All (λ (q : Interval). q.0 ≡ q.1) f
    → HasLeaves dp lo segments
    → Numbers dp f (map segment_id segments)
singles-Numbers [] [] lo dp c a h = refl
singles-Numbers [] ((x, y) ∷ f) lo dp (e, m, c) a h =
    absurd (omega (arith, e, m, Covers-le (suc y) (lo + 0) f c))
singles-Numbers (s ∷ segments) [] lo dp c a h = absurd (omega (arith, c))
singles-Numbers (s ∷ segments) ((x, y) ∷ f) lo dp (e, m, c) (single, a) (h, hs) =
    ap₂ (λ i l. i ∷ l)
      (ap₂ (λ i j. (dp i j).id) e (sym single ∙ e) ∙ ap (λ (i : DpItem). i.id) h ∙ omega arith)
      (singles-Numbers segments f (lo + 1) dp
        (subst (λ k. Covers k ((lo + 1) + length segments) f) {x = suc y} (omega (arith, single, e))
          (subst (λ k. Covers (suc y) k f) {x = lo + suc (length segments)} (omega arith) c))
        a hs)

kept_separation :
    (l r id : ℕ) (dp : DpTable) (a b : ℕ)
    → (set_dp l r (record (dp l r) { id = id }) dp a b).separation ≡ (dp a b).separation
kept_separation l r id dp a b = elim (ℕ_discrete a l) [
  | yes p ↦ elim (ℕ_discrete b r) [
    | yes q ↦
        subst
          (λ (x : Interval).
            (set_dp l r (record (dp l r) { id = id }) dp x.0 x.1).separation
            ≡ (dp x.0 x.1).separation)
          {x = (l, r)} (ap₂ (λ (i j : ℕ). (i, j)) (sym p) (sym q))
          (ap (λ (i : DpItem). i.separation) (set_dp_same l r (record (dp l r) { id = id }) dp))
    | no n ↦ ap (λ (i : DpItem). i.separation) (set_dp_other l r _ dp a b (inr n))
  ]
  | no n ↦ ap (λ (i : DpItem). i.separation) (set_dp_other l r _ dp a b (inl n))
]

-- What the loop over the queue promises for the intervals that the queue starts from.
abbrev pub Numbered :
    DpTable → ℕ → List ProfileSegment → List Interval → ℕ → Result Numbering → Type 0
Numbered dp put segments f size m =
    (v : Numbering) × (live : List ℕ) × (m ≡ ok v)
    × ((a b : ℕ) → (v.dp a b).separation ≡ (dp a b).separation)
    × (v.put ≡ put + size)
    × (length v.plans ≡ size)
    × Numbers v.dp f live
    × Leads put (map segment_id segments) v.plans live

pub number_all-Numbered :
    (queue : List Interval) (f : List Interval) (dp : DpTable) (put : ℕ)
    (segments : List ProfileSegment)
    → Expands dp f queue
    → Covers 0 (length segments) f
    → HasLeaves dp 0 segments
    → Numbered dp put segments f
        (length queue)
        (number_all queue (record { dp = dp; put = put; plans = [] }))
unfolding number_all
number_all-Numbered [] f dp put segments single c leaves = (
  record { dp = dp; put = put; plans = [] },
  map segment_id segments,
  refl,
  λ a b. refl,
  omega arith,
  refl,
  singles-Numbers segments f 0 dp (subst (λ n. Covers 0 n f) {x = length segments} (omega arith) c)
      single leaves,
  refl,
)
number_all-Numbered ((l, r) ∷ queue) f dp put segments (a, b, e, lt, (from, before), expands) c
      leaves =
    let s = (dp l r).separation in
    let c' = subst (Covers 0 (length segments)) e c in
    let (apart, not_a, not_b) = Covers-apart 0 (length segments) l r a b c' in
    let (v, live, runs, same, count, size, numbers, leads) =
      number_all-Numbered queue (a ++ (l, s) ∷ (s + 1, r) ∷ b) dp put segments expands
        (Covers-cut 0 (length segments) l s r a b from before c') leaves in
    let (la, left, right, lb, parts, ea, ex, ey, eb) =
      split-Numbers v.dp a (l, s) (s + 1, r) b live numbers in
    let item = record (v.dp l r) { id = v.put + 1 } in
    let merged =
      Leads-merge v.plans put (map segment_id segments) la lb left right
        (subst (Leads put (map segment_id segments) v.plans) parts leads) in
    (
      record {
        dp = set_dp l r item v.dp;
        put = v.put + 1;
        plans = v.plans ++ record { id = v.put; left = left; right = right } ∷ [];
      },
      la ++ v.put ∷ lb,
      ap (λ m. m >>= number (l, r)) runs ∙ number_lem l r s left right v (same l r) ex ey,
      λ i j. kept_separation l r (v.put + 1) v.dp i j ∙ same i j,
      omega (arith, count),
      length-append v.plans _ ∙ omega (arith, size),
      subst (λ g. Numbers (set_dp l r item v.dp) g (la ++ v.put ∷ lb)) (sym e)
          (Numbers-join (set_dp l r item v.dp) a (l, r) b la v.put lb
            (Numbers-keep l r item v.dp a la not_a ea)
            (ap (λ (i : DpItem). i.id) (set_dp_same l r item v.dp) ∙ omega arith)
            (Numbers-keep l r item v.dp b lb not_b eb)),
      subst
          (λ n.
            Leads put (map segment_id segments)
              (v.plans ++ record { id = n; left = left; right = right } ∷ []) (la ++ n ∷ lb))
          {x = put + length v.plans} {y = v.put} (omega (arith, size, count)) merged,
    )
