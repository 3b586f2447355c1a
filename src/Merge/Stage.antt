-- ===== src/Merge/Stage.antt =====
-- The whole merge stage: what `wmerge` returns when its planner gives valid plans.
use wdedup.Prelude.{
  Pick-map_put, ℕ, zero, suc, ◌+◌, ◌<◌, ◌≤◌, ◌≡◌, ◌⊎◌, inl, inr, refl, sym, ap, ◌∙◌, Bool, true,
  List, [], ◌∷◌, ◌++◌, none, some, arith, map, All, Pick, Pick-map, length, get_elem?, drop, subst,
}
use native.Mathlib.Numerals.{add-one}
use wdedup.Errors.{Result, ok, fault}
use wdedup.Word.{Word}
use wdedup.Profile.{Profile}
use wdedup.Profile.Status.{◌⊕◌, status, ⊕_assoc, ⊕_absent}
use wdedup.Serial.{put_char}
use wdedup.File.{buffer_size}
use wdedup.ProfileFile.Size.{table_size}
use wdedup.Config.{Config, write_log, recovery_done}
use wdedup.Plan.{MergePlan, Planner}
use wdedup.Plan.Valid.{Valid}
use wdedup.Merge.{merge_one, merge_loop, wmerge, end_mark}
use wdedup.Merge.Rounds.{
  Entry, Stored, Inv, total, Pick-total, space, Pick-space, round_space, merged, status-merged,
  after_round, merge_one_lem,
}
use wdedup.Merge.Keep.{Stored-r, Stored-s, after_round-Inv}

-- The plans that are left when the cursor stands at `k`.
pub drop_get :
    (plans : List MergePlan) (k : ℕ) (plan : MergePlan) (rest : List MergePlan)
    → drop k plans ≡ plan ∷ rest
    → (get_elem? plans k ≡ some plan) × (drop (k + 1) plans ≡ rest)
drop_get [] zero plan rest h = cc
drop_get [] (suc k) plan rest h = cc
drop_get (x ∷ plans) zero plan rest h = ground arith
drop_get (x ∷ plans) (suc k) plan rest h =
    let (a, b) = drop_get plans k plan rest h in (a, rw (add-one (suc k)) (rw add-one at b))

pub drop_end : (plans : List MergePlan) (k : ℕ) → drop k plans ≡ [] → get_elem? plans k ≡ none
drop_end [] k h = refl
drop_end (x ∷ plans) zero h = cc
drop_end (x ∷ plans) (suc k) h = drop_end plans k h

-- What the stage promises of its result: the root's file holds a sorted table that says of every
-- word what all the profiles said together before, and takes no more bytes than they did; or a
-- word was cut by the end of a buffer, and the profiles take more bytes than one buffer has.
abbrev pub Merges : List Entry → ℕ → Result (ℕ × Config) → Type 0
Merges live root r =
    ((c : Config) × (p : Profile) × (r ≡ ok (root, c))
      × Stored c (root, p)
      × (table_size p ≤ space live)
      × ((w : Word) → status w p ≡ total w live))
    ⊎ ((r ≡ fault) × (buffer_size < space live))

-- The root is left alone.
pub root_only :
    (c : Config) (root : ℕ) (live : List Entry)
    → All (Stored c) live
    → map (λ (e : Entry). e.0) live ≡ root ∷ []
    → (p : Profile) × Stored c (root, p)
      × (table_size p ≤ space live)
      × ((w : Word) → status w p ≡ total w live)
unfolding total
root_only c root [] s v = absurd (cc)
root_only c root (d ∷ e ∷ live) s v = absurd (cc)
root_only c root (e ∷ []) s v = (
  e.1,
  subst (λ j. Stored c (j, e.1)) {x = e.0} (ground arith) s.0,
  omega arith,
  λ w. sym (⊕_absent (status w e.1)),
)

module _ (gc : Bool) where
  loop_step :
      (fuel : ℕ) (planner : Planner) (plan next : MergePlan) (c c' : Config)
      → get_elem? planner.plans planner.cursor ≡ some next
      → merge_one gc next c ≡ ok c'
      → merge_loop gc (suc fuel) planner plan c
        ≡ merge_loop gc fuel (record planner { cursor = planner.cursor + 1 }) next c'
  unfolding merge_loop
  loop_step fuel planner plan next c c' h m = ground arith

  loop_fault :
      (fuel : ℕ) (planner : Planner) (plan next : MergePlan) (c : Config)
      → get_elem? planner.plans planner.cursor ≡ some next
      → merge_one gc next c ≡ fault
      → merge_loop gc (suc fuel) planner plan c ≡ fault
  unfolding merge_loop
  loop_fault fuel planner plan next c h m = ground arith

  loop_end :
      (fuel : ℕ) (planner : Planner) (plan : MergePlan) (c : Config)
      → get_elem? planner.plans planner.cursor ≡ none
      → c.olog ≡ true
      → merge_loop gc (suc fuel) planner plan c
        ≡ ok (planner.root, record c { log = c.log ++ put_char end_mark })
  unfolding merge_loop write_log
  loop_end fuel planner plan c h o = ground arith

  loop_done :
      (fuel : ℕ) (planner : Planner) (plan : MergePlan) (c : Config) (put : ℕ) (live : List Entry)
      → get_elem? planner.plans planner.cursor ≡ none
      → Inv c put live
      → map (λ (e : Entry). e.0) live ≡ planner.root ∷ []
      → Merges live planner.root (merge_loop gc (suc fuel) planner plan c)
  loop_done fuel planner plan c put live h inv v =
      let (p, s, small, says) = root_only c planner.root live inv.stored v in
      inl (
        record c { log = c.log ++ put_char end_mark },
        p,
        loop_end fuel planner plan c h inv.open_log,
        record { file = s.file; storable = s.storable; ascending = s.ascending; worded = s.worded },
        small,
        says,
      )

-- The two profiles of a plan among the entries.
pub picks :
    (live : List Entry) {left right : ℕ} {r s : List ℕ}
    → Pick left (map (λ e. e.0) live) r
    → Pick right r s
    → (p q : Profile) × (r' s' : List Entry) × Pick (left, p) live r'
      × Pick (right, q) r' s'
      × (map (λ e. e.0) s' ≡ s)
picks live {left} {right} {r} {s} a b =
    let (d, r', a', e, m) = Pick-map (λ e. e.0) live a in
    let (f, s', b', g, n) = Pick-map (λ e. e.0) r' (subst (λ t. Pick right t s) (sym m) b) in
    (
      d.1,
      f.1,
      r',
      s',
      subst (λ j. Pick (j, d.1) live r') e a',
      subst (λ j. Pick (j, f.1) r' s') g b',
      n,
    )

-- A round moves what is known of a word, and changes nothing of it.
pub total_round :
    (w : Word) (left right put : ℕ) (p q : Profile) {live r s t : List Entry}
    → Pick (left, p) live r
    → Pick (right, q) r s
    → Pick (put, merged p q) t s
    → total w t ≡ total w live
total_round w left right put p q {live} {r} {s} a b k =
    Pick-total w k
    ∙ ap (λ u. u ⊕ total w s) (status-merged w p q)
    ∙ ⊕_assoc (status w p) (status w q) (total w s)
    ∙ ap (◌⊕◌ (status w p)) (sym (Pick-total w b))
    ∙ sym (Pick-total w a)

module _ (gc : Bool) where
  -- From any point of the loop: the plans that are left are carried out, whatever the fuel above
  -- their number.
  pub merge_loop-Merges :
      (rest : List MergePlan) (fuel : ℕ) (planner : Planner) (plan : MergePlan) (c : Config)
      (put : ℕ) (live : List Entry)
      → length rest < fuel
      → drop planner.cursor planner.plans ≡ rest
      → Inv c put live
      → Valid put (map (λ e. e.0) live) rest planner.root
      → Merges live planner.root (merge_loop gc fuel planner plan c)
  merge_loop-Merges rest zero planner plan c put live f d inv v = absurd (omega arith)
  merge_loop-Merges [] (suc fuel) planner plan c put live f d inv v =
      loop_done gc fuel planner plan c put live (drop_end planner.plans planner.cursor d) inv v
  merge_loop-Merges (next ∷ rest) (suc fuel) planner plan c put live f d inv
        (r, s, t, a, b, k, new, v) =
      let (at, d') = drop_get planner.plans planner.cursor next rest d in
      let (p, q, r', s', a', b', m) = picks live a b in
      let e : Entry = (put, merged p q) in
      let (t', k', n) = Pick-map_put (λ (d : Entry). d.0) e s' (subst (Pick put t) (sym m) k) in
      let stored_left = (Stored-r gc next c p q put inv new a' b').0 in
      let stored_right = (Stored-s gc next c p q put inv new a' b').0 in
      let absent_new = inv.fresh next.id (omega arith) in
      elim (merge_one_lem gc next c p q stored_left stored_right absent_new inv.open_log) [
        | inr (faults, large) ↦ inr (
          loop_fault gc fuel planner plan next c at faults,
          omega (arith, large, Pick-space a', Pick-space b'),
        )
        | inl made ↦
            let step = loop_step gc fuel planner plan next c _ at made in
            elim (merge_loop-Merges rest fuel (record planner { cursor = planner.cursor + 1 }) next
              (after_round gc next (merged p q) c) (suc put) t' (omega arith) d'
              (after_round-Inv gc next c p q put inv new a' b' k')
              (subst (λ u. Valid (suc put) u rest planner.root) (sym n) v)) [
                | inr (faults, large) ↦ inr (
                  step ∙ faults,
                  omega (arith, large, round_space next.left next.right put p q a' b' k'),
                )
                | inl (c', out, runs, stored, small, says) ↦ inl (
                  c',
                  out,
                  step ∙ runs,
                  stored,
                  omega (arith, small, round_space next.left next.right put p q a' b' k'),
                  λ w. says w ∙ total_round w next.left next.right put p q a' b' k',
                )
              ]
      ]

abbrev pub blank : MergePlan
blank = record { id = 0; left = 0; right = 0 }

wmerge_recovered :
    (planner : Planner) (disable_gc : Bool) (c : Config)
    → c.ilog ≡ none
    → wmerge planner disable_gc c ≡ merge_loop disable_gc (length planner.plans + 1) planner blank c
unfolding wmerge recovery_done
wmerge_recovered planner disable_gc c i = ground arith

-- A stage that starts with its recovery behind it, with profiles `live` in the working directory and
-- plans that lead from them to the root, returns the root, whatever the garbage collection:
-- the root's file holds a sorted table that says of every word what the profiles said together,
-- and takes no more bytes than they did. Only if the profiles take more than 4096 bytes together,
-- the stage may write out of bounds instead, at a word that is cut by the end of a buffer.
pub wmerge-Merges :
    (planner : Planner) (disable_gc : Bool) (c : Config) (put : ℕ) (live : List Entry)
    → c.ilog ≡ none
    → planner.cursor ≡ 0
    → Inv c put live
    → Valid put (map (λ e. e.0) live) planner.plans planner.root
    → Merges live planner.root (wmerge planner disable_gc c)
wmerge-Merges planner disable_gc c put live i k inv v =
    subst (Merges live planner.root) (sym (wmerge_recovered planner disable_gc c i))
      (merge_loop-Merges disable_gc planner.plans _ planner _ c put live (omega arith) (rw k) inv v)
