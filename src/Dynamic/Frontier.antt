-- ===== src/Dynamic/Frontier.antt =====
-- The queue of the dynamic planner, as the order in which an interval is cut up into single places.
use wdedup.Prelude.{
  ℕ, zero, suc, ◌+◌, ◌-◌, ◌<◌, ◌≤◌, ◌≡◌, refl, sym, ap, ◌∙◌, subst, Bool, true, false, List, [],
  ◌∷◌, ◌++◌, inl, inr, arith, ltb, if◌then◌else◌, length, Bool-cases, All, All-append, Pick, here,
  there, Pick-middle, Pick-second, Pick-swap, Pick-split, append_assoc, append-nil,
}
use wdedup.Errors.{Result, ok, fault, ◌>>=◌}
use wdedup.Dynamic.{DpTable, parts, retrace}

abbrev pub Interval : Type 0
Interval = ℕ × ℕ

-- The intervals follow on each other from `lo` to before `hi`.
abbrev pub Covers : ℕ → ℕ → List Interval → Type 0
Covers lo hi [] = lo ≡ hi
Covers lo hi ((l, r) ∷ f) = (l ≡ lo) × (l ≤ r) × Covers (suc r) hi f

-- The place of separation lies inside the interval.
abbrev pub IsCut : DpTable → ℕ → ℕ → Type 0
IsCut dp l r = (l ≤ (dp l r).separation) × ((dp l r).separation < r)

-- The queue cuts the intervals up one after the other, at the place that the table says, till all are single.
abbrev pub Expands : DpTable → List Interval → List Interval → Type 0
Expands dp f [] = All (λ (q : Interval). q.0 ≡ q.1) f
Expands dp f ((l, r) ∷ queue) =
    (a : List Interval) × (b : List Interval) × (f ≡ a ++ (l, r) ∷ b)
    × (l < r)
    × IsCut dp l r
    × Expands dp (a ++ (l, (dp l r).separation) ∷ ((dp l r).separation + 1, r) ∷ b) queue

-- Those of the intervals that are not single wait in the queue.
pub data Waits : List Interval → List Interval → Type 0 where
  none_waits : {f : List Interval} → All (λ (q : Interval). q.0 ≡ q.1) f → Waits [] f
  one_waits :
      {q : Interval} {f f' queue : List Interval}
      → q.0 < q.1
      → Pick q f f'
      → Waits queue f'
      → Waits (q ∷ queue) f

Waits-wide :
    {queue f' : List Interval}
    → Waits queue f'
    → (x : Interval) (f : List Interval) → x.0 < x.1
    → Pick x f f'
    → Waits (queue ++ x ∷ []) f
Waits-wide (none_waits a) x f h p = one_waits h p (none_waits a)
Waits-wide (one_waits k q w) x f h p =
    let (t, q', p') = Pick-swap p q in one_waits k q' (Waits-wide w x t h p')

All-of :
    {x : Interval} {f f' : List Interval}
    → Pick x f f'
    → x.0 ≡ x.1
    → All (λ (q : Interval). q.0 ≡ q.1) f'
    → All (λ (q : Interval). q.0 ≡ q.1) f
All-of here e a = (e, a)
All-of (there p) e a = (a.0, All-of p e a.1)

Waits-single :
    {queue f' : List Interval}
    → Waits queue f'
    → (x : Interval) (f : List Interval) → x.0 ≡ x.1
    → Pick x f f'
    → Waits queue f
Waits-single (none_waits a) x f e p = none_waits (All-of p e a)
Waits-single (one_waits k q w) x f e p =
    let (t, q', p') = Pick-swap p q in one_waits k q' (Waits-single w x t e p')

-- A part goes to the queue if it is not single.
abbrev part : ℕ → ℕ → List Interval
part l r = if ltb l r then (l, r) ∷ [] else []

Waits-part :
    (l r : ℕ) {f f' queue : List Interval}
    → l ≤ r
    → Pick (l, r) f f'
    → Waits queue f'
    → Waits (queue ++ part l r) f
Waits-part l r {f} {f'} {queue} h p w = elim (Bool-cases (ltb l r)) [
  | inl y ↦
      subst (λ (b : Bool). Waits (queue ++ (if b then (l, r) ∷ [] else [])) f) (sym y)
        (Waits-wide w (l, r) f (ground (arith, y)) p)
  | inr n ↦
      subst (λ (b : Bool). Waits (queue ++ (if b then (l, r) ∷ [] else [])) f) (sym n)
        (subst (λ u. Waits u f) (sym (append-nil queue))
          (Waits-single w (l, r) f (ground (arith, n, h)) p))
]

-- How many cuts the queue is for.
abbrev pub cuts : List Interval → ℕ
cuts [] = 0
cuts ((l, r) ∷ queue) = (r - l) + cuts queue

cuts-append : (a b : List Interval) → cuts (a ++ b) ≡ cuts a + cuts b
cuts-append [] b = omega arith
cuts-append ((l, r) ∷ a) b = omega (arith, cuts-append a b)

cuts-part : (l r : ℕ) → cuts (part l r) ≡ r - l
cuts-part l r = ground arith

module _ (dp : DpTable) (n : ℕ) (cut : (l r : ℕ) → l < r → r < n → IsCut dp l r) where
  abbrev Inside : List Interval → Type 0
  Inside f = All (λ (q : Interval). q.1 < n) f

  Inside-part : (l r : ℕ) → r < n → Inside (part l r)
  Inside-part l r h = elim (Bool-cases (ltb l r)) [
    | inl y ↦ subst (λ (b : Bool). Inside (if b then (l, r) ∷ [] else [])) (sym y) (h, tt)
    | inr m ↦ subst (λ (b : Bool). Inside (if b then (l, r) ∷ [] else [])) (sym m) tt
  ]

  retrace_step :
      (fuel : ℕ) (queue : List Interval) (l r : ℕ)
      → l < r
      → (visited : List Interval) → retrace fuel dp (queue ++ parts dp l r) ≡ ok visited
      → retrace (suc fuel) dp ((l, r) ∷ queue) ≡ ok ((l, r) ∷ visited)
  unfolding retrace
  retrace_step fuel queue l r h visited e =
      let finish = λ (m : Result (List Interval)). m >>= λ rest. ok ((l, r) ∷ rest) in
      ap
        (λ (b : Bool). elim b [
          | true ↦ finish (retrace fuel dp (queue ++ parts dp l r))
          | false ↦ fault
        ])
        {x = ltb l r} {y = true} (ground (arith, h))
      ∙ ap finish e

  -- The queue that the code makes expands the intervals, with a round for each cut and one more.
  pub retrace-Expands :
      (fuel : ℕ) (queue f : List Interval)
      → Waits queue f
      → Inside queue
      → cuts queue < fuel
      → (visited : List Interval) × (retrace fuel dp queue ≡ ok visited)
        × Expands dp f visited
        × (length visited ≡ cuts queue)
  unfolding retrace parts
  retrace-Expands zero queue f w i h = absurd (omega arith)
  retrace-Expands (suc fuel) [] f (none_waits a) i h = ([], refl, a, refl)
  retrace-Expands (suc fuel) ((l, r) ∷ queue) f (one_waits lt pick w) (inside, i) h =
      let (a, b, e, e') = Pick-split pick in
      let (from, before) = cut l r lt inside in
      let s = (dp l r).separation in
      let left = part l s in
      let right = part (s + 1) r in
      let w1 =
        Waits-part l s {f = a ++ (l, s) ∷ b} from (Pick-middle a (l, s) b)
          (subst (Waits queue) e' w) in
      let w2 =
        Waits-part (s + 1) r {f = a ++ (l, s) ∷ (s + 1, r) ∷ b} (omega (arith, before))
          (Pick-second a (l, s) (s + 1, r) b) w1 in
      let fewer : suc (cuts (queue ++ (left ++ right))) ≡ (r - l) + cuts queue = omega (
        arith,
        cuts-append queue (left ++ right),
        cuts-append left right,
        cuts-part l s,
        cuts-part (s + 1) r,
        from,
        before,
      ) in
      let (visited, runs, expands, size) =
        retrace-Expands fuel (queue ++ parts dp l r) (a ++ (l, s) ∷ (s + 1, r) ∷ b)
          (subst (λ u. Waits u (a ++ (l, s) ∷ (s + 1, r) ∷ b)) (append_assoc queue left right) w2)
          (All-append (λ (q : Interval). q.1 < n) queue (left ++ right) i
            (All-append (λ (q : Interval). q.1 < n) left right
              (Inside-part l s (omega (arith, before, inside))) (Inside-part (s + 1) r inside)))
          (omega (arith, fewer)) in
      (
        (l, r) ∷ visited,
        retrace_step fuel queue l r lt visited runs,
        (a, b, e, lt, (from, before), expands),
        omega (arith, size, fewer),
      )
