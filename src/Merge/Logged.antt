-- ===== src/Merge/Logged.antt =====
-- The recovery of `wmerge` reads the entries back that the stage logged.
use wdedup.Prelude.{
  ℕ, suc, ◌+◌, ◌-◌, ◌≤◌, ◌<◌, ◌^◌, ◌≡◌, refl, ap, ap₂, ◌∙◌, Bool, true, false, List, [], ◌∷◌, ◌++◌,
  none, some, arith, All, map, length, length-append, get_elem?, drop, ◌==◌,
}
use wdedup.Errors.{Result, ok, ◌>>=◌}
use wdedup.Serial.{put_char, put_size}
use wdedup.Serial.RoundTrip.{get_size-put_size, get-put_size}
use wdedup.Config.{Config, log_file}
use wdedup.Plan.{MergePlan, Planner}
use wdedup.Plan
use wdedup.Merge.{
  merge_entry, merge_mark, end_mark, collect, finished, resumed, recover_one, recover,
}
use wdedup.Merge.Stage.{drop_get, drop_end}

-- An executed plan with the size that was logged.
abbrev pub Logged : Type 0
Logged = MergePlan × ℕ

abbrev pub plans_of : List Logged → List MergePlan
plans_of = map (λ (d : Logged). d.0)

-- Their entries.
abbrev pub entries : List Logged → List ℕ
entries [] = []
entries (d ∷ ds) = merge_entry d.0 d.1 ++ entries ds

-- What the recovery collects.
abbrev pub collect_all : Bool → List MergePlan → Config → Config
collect_all gc [] c = c
collect_all gc (plan ∷ plans) c = collect_all gc plans (collect gc plan.left plan.right c)

-- The numbers of a plan fit a `size_t`.
abbrev pub IsSized : MergePlan → Type 0
IsSized plan = (plan.left < 2 ^ 64) × (plan.right < 2 ^ 64) × (plan.id < 2 ^ 64)

-- The numbers of an entry, in front of other bytes.
abbrev entry_tail : MergePlan → ℕ → List ℕ → List ℕ
entry_tail plan size rest =
    put_size plan.left ++ (put_size plan.right ++ (put_size plan.id ++ (put_size size ++ rest)))

entry_bytes :
    (plan : MergePlan) (size : ℕ) (l tail : List ℕ)
    → (merge_entry plan size ++ l) ++ tail ≡ merge_mark ∷ entry_tail plan size (l ++ tail)
unfolding merge_entry put_char put_size
entry_bytes plan size l tail = refl

pop_next :
    (planner : Planner) (plan next : MergePlan)
    → get_elem? planner.plans planner.cursor ≡ some next
    → Plan.pop planner plan ≡ (true, next, record planner { cursor = planner.cursor + 1 })
unfolding Plan.pop
pop_next planner plan next at = ground arith

pop_end :
    (planner : Planner) (plan : MergePlan)
    → get_elem? planner.plans planner.cursor ≡ none
    → Plan.pop planner plan ≡ (false, record plan { id = planner.root }, planner)
unfolding Plan.pop
pop_end planner plan at = ground arith

same_number : (n : ℕ) → (n == n) ≡ true
same_number n = ground arith

recover_one-merge_entry :
    (gc : Bool) (planner : Planner) (plan next : MergePlan) (size : ℕ) (rest : List ℕ) (c : Config)
    → get_elem? planner.plans planner.cursor ≡ some next
    → IsSized next
    → recover_one gc planner plan (entry_tail next size rest) c
      ≡ ok (
        record planner { cursor = planner.cursor + 1 },
        next,
        rest,
        collect gc next.left next.right c,
      )
unfolding recover_one
recover_one-merge_entry gc planner plan next size rest c at (l, r, i) =
    rw
      (get-put_size (log_file c) next.left
        (put_size next.right ++ (put_size next.id ++ (put_size size ++ rest))) l)
      (rw (get-put_size (log_file c) next.right (put_size next.id ++ (put_size size ++ rest)) r) (
        rw (get-put_size (log_file c) next.id (put_size size ++ rest) i) (
          rw (get_size-put_size (log_file c) size rest) (
            rw
              (
                pop_next planner plan next at,
                same_number next.left,
                same_number next.right,
                same_number next.id,
              )
              refl))))

-- The recovery passes over the entries of the plans that the planner gives, and leaves the planner behind them.
recover-entries :
    (gc : Bool) (ds : List Logged) (left : List MergePlan) (fuel : ℕ) (planner : Planner)
    (plan : MergePlan) (tail : List ℕ) (c : Config)
    → drop planner.cursor planner.plans ≡ plans_of ds ++ left
    → All IsSized (plans_of ds)
    → (cursor : ℕ) × (last : MergePlan) × (drop cursor planner.plans ≡ left)
      × (recover gc (length ds + fuel) planner plan (entries ds ++ tail) c
          ≡ recover gc fuel
              (record planner { cursor = cursor })
              last
              tail
              (collect_all gc (plans_of ds) c))
unfolding recover
recover-entries gc [] left fuel planner plan tail c d a =
    (planner.cursor, plan, d, ap (λ n. recover gc n planner plan tail c) (omega arith))
recover-entries gc (l ∷ ds) left fuel planner plan tail c d (sized, a) =
    let (at, d') = drop_get planner.plans planner.cursor l.0 (plans_of ds ++ left) d in
    let next = record planner { cursor = planner.cursor + 1 } in
    let c' = collect gc l.0.left l.0.right c in
    let (cursor, last, e, same) = recover-entries gc ds left fuel next l.0 tail c' d' a in
    (
      cursor,
      last,
      e,
      ap₂ (λ k m. recover gc k planner plan m c) {x = suc (length ds) + fuel}
            {y = suc (length ds + fuel)} (omega arith) (entry_bytes l.0 l.1 (entries ds) tail)
          ∙ ap
              (λ (m : Result (Planner × MergePlan × List ℕ × Config)).
                m >>= λ (p, q, s, d). recover gc (length ds + fuel) p q s d)
              (recover_one-merge_entry gc planner plan l.0 l.1 (entries ds ++ tail) c at sized)
          ∙ same,
    )

length-merge_entry : (plan : MergePlan) (size : ℕ) → length (merge_entry plan size) ≡ 33
unfolding merge_entry put_char put_size
length-merge_entry plan size = refl

length-entries : (ds : List Logged) → length ds ≤ length (entries ds)
length-entries [] = omega arith
length-entries (d ∷ ds) = omega (
  arith,
  length-entries ds,
  length-append (merge_entry d.0 d.1) (entries ds),
  length-merge_entry d.0 d.1,
)

-- The recovery of a log that begins with these entries, with the fuel that `wmerge` gives it.
pub recover_log :
    (gc : Bool) (ds : List Logged) (left : List MergePlan) (planner : Planner) (plan : MergePlan)
    (tail : List ℕ) (c : Config)
    → drop planner.cursor planner.plans ≡ plans_of ds ++ left
    → All IsSized (plans_of ds)
    → (fuel cursor : ℕ) × (last : MergePlan) × (drop cursor planner.plans ≡ left)
      × (recover gc (length (entries ds ++ tail) + 1) planner plan (entries ds ++ tail) c
          ≡ recover gc
              (suc fuel)
              (record planner { cursor = cursor })
              last
              tail
              (collect_all gc (plans_of ds) c))
recover_log gc ds left planner plan tail c d a =
    let n = length (entries ds ++ tail) - length ds in
    let (cursor, last, e, same) = recover-entries gc ds left (suc n) planner plan tail c d a in
    (
      n,
      cursor,
      last,
      e,
      ap (λ k. recover gc k planner plan (entries ds ++ tail) c)
            {x = length (entries ds ++ tail) + 1} {y = length ds + suc n}
            (omega (arith, length-append (entries ds) tail, length-entries ds))
          ∙ same,
    )

pub recover_nothing :
    (gc : Bool) (fuel : ℕ) (planner : Planner) (plan : MergePlan) (c : Config)
    → recover gc (suc fuel) planner plan [] c
      ≡ ok (resumed planner plan (record c { ilog = some [] }))
unfolding recover
recover_nothing gc fuel planner plan c = refl

pub recover_end :
    (gc : Bool) (fuel : ℕ) (planner : Planner) (plan : MergePlan) (rest : List ℕ) (c : Config)
    → drop planner.cursor planner.plans ≡ []
    → recover gc (suc fuel) planner plan (put_char end_mark ++ rest) c
      ≡ ok (finished planner.root (record c { ilog = some rest }))
unfolding recover put_char
recover_end gc fuel planner plan rest c d =
    rw (pop_end planner plan (drop_end planner.plans planner.cursor d)) refl
