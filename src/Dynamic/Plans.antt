-- ===== src/Dynamic/Plans.antt =====
-- The constructor of the dynamic planner gives valid plans.
use wdedup.Prelude.{
  ℕ, suc, ◌-◌, ◌≡◌, ◌≢◌, refl, sym, ap, ◌∙◌, subst, List, [], ◌∷◌, arith, length, map, here,
  length-map,
}
use wdedup.Errors.{Result, ok, ◌>>=◌}
use wdedup.Config.{Config}
use wdedup.Plan.{ProfileSegment}
use wdedup.Plan.Valid.{PlansFor, segment_id}
use wdedup.Simple.{next_put}
use wdedup.Simple.Plans.{finish, finish-PlansFor}
use wdedup.Dynamic.{DpTable, Numbering, fill_table, number_all, dp_planner}
use wdedup.Dynamic.Table.{fill_table_lem}
use wdedup.Dynamic.Frontier.{Interval, one_waits, none_waits, retrace-Expands}
use wdedup.Dynamic.Numbers.{Leads, Leads-Valid, number_all-Numbered}

one_number : (n : ℕ) (live : List ℕ) → n ∷ [] ≡ map suc live → (root : ℕ) × (live ≡ root ∷ [])
one_number n [] e = absurd (cc)
one_number n (m ∷ []) e = (m, refl)
one_number n (m ∷ k ∷ live) e = absurd (cc)

-- Given at least one segment, whatever the memory of the table held before, the constructor returns plans
-- that are valid from the segments' numbers, one fewer than the segments, numbered from the
-- first number above all of theirs.
pub dp_planner-PlansFor :
    (fresh : DpTable) (c : Config) (segments : List ProfileSegment)
    → segments ≢ []
    → PlansFor (next_put 0 segments) segments (dp_planner fresh c segments)
unfolding dp_planner
dp_planner-PlansFor fresh c [] h = absurd (h refl)
dp_planner-PlansFor fresh c (s ∷ []) h =
    (record { plans = []; cursor = 0; root = s.id }, refl, refl, refl, refl)
dp_planner-PlansFor fresh c (s ∷ t ∷ segments) h =
    let all = s ∷ t ∷ segments in
    let n = length all in
    let dp = fill_table all fresh in
    let put = next_put 0 all in
    let (leaves, best) = fill_table_lem all fresh (λ e. cc) in
    let (queue, visits, expands, size) =
      retrace-Expands dp n (λ l r a b. ((best l r a b).from, (best l r a b).before)) n
        ((0, n - 1) ∷ []) ((0, n - 1) ∷ []) (one_waits (omega arith) here (none_waits tt))
        (omega arith) (omega arith) in
    let (v, live, runs, same, count, plans, numbers, leads) =
      number_all-Numbered queue ((0, n - 1) ∷ []) dp put all expands
        (refl, omega arith, omega arith) leaves in
    let (root, alone) = one_number _ live numbers in
    let rounds = λ (m : Result (List Interval)). m >>= λ q.
    number_all q (record { dp = dp; put = put; plans = [] }) >>= λ v. finish (ok v.plans) in
    subst (PlansFor put all) {x = finish (ok v.plans)}
      (sym (ap rounds visits ∙ ap (λ (m : Result Numbering). m >>= λ v. finish (ok v.plans)) runs))
      (finish-PlansFor put all (ok v.plans) (omega arith) (
        v.plans,
        root,
        refl,
        Leads-Valid v.plans put (map segment_id all) root
            (subst (Leads put (map segment_id all) v.plans) alone leads),
        omega (arith, plans, size, length-map segments segment_id),
      ))
