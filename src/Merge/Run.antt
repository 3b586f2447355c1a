-- ===== src/Merge/Run.antt =====
-- A run of the merging loop that is stopped behind some of its rounds.
use wdedup.Prelude.{
  Pick-map_put, ℕ, suc, ◌+◌, ◌<◌, ◌≤◌, inl, inr, ◌≡◌, ◌≢◌, refl, sym, ap, ◌∙◌, Bool, List, [], ◌∷◌,
  ◌++◌, arith, map, All, All-of_Pick, Pick, Pick-All, length, subst, append_assoc, append-nil,
}
use wdedup.Errors.{Result, ok, fault, ◌>>=◌}
use wdedup.Word.{Word}
use wdedup.ProfileFile.{encode}
use wdedup.Config.{Config, set_file, remove}
use wdedup.Plan.{MergePlan}
use wdedup.Plan.Valid.{Valid}
use wdedup.Profile.{Profile}
use wdedup.Merge.{merge_one, merge_entry, collect}
use wdedup.Merge.Rounds.{Entry, Inv, total, space, round_space, merged, after_round, merge_one_lem}
use wdedup.Merge.Keep.{
  Stored-r, Stored-s, after_round-Inv, apart_left, apart_right, below_r, below_s,
}
use wdedup.Merge.Stage.{picks, total_round}
use wdedup.Merge.Logged.{Logged, plans_of, entries}

-- The rounds of the merging loop for these plans.
unfoldable pub run_rounds : Bool → List MergePlan → Config → Result Config
run_rounds disable_gc [] c = ok c
run_rounds disable_gc (plan ∷ plans) c = do
  c' ← merge_one disable_gc plan c
  run_rounds disable_gc plans c'

-- No profile has the number.
abbrev pub IsGone : ℕ → List Entry → Type 0
IsGone j = All (λ e. j ≢ e.0)

-- The profiles of the plan are merged and its own number is given.
pub record IsDone (put : ℕ) (live : List Entry) (plan : MergePlan) : Type 0 where
  pub left_gone : IsGone plan.left live
  pub right_gone : IsGone plan.right live
  pub left_below : plan.left < put
  pub right_below : plan.right < put
  pub id_below : plan.id < put

-- What the rounds reach: `live` are the profiles that are there now.
pub record Reached (c : Config) (put : ℕ) (before : List Entry) (done left : List MergePlan)
    (root : ℕ) (c' : Config) (put' : ℕ) (live : List Entry) (ds : List Logged) : Type 0 where
  pub grown : put' ≡ put + length done
  pub inv : Inv c' put' live
  pub valid : Valid put' (map (λ e. e.0) live) left root
  pub same_total : (w : Word) → total w live ≡ total w before
  pub logged : c'.log ≡ c.log ++ entries ds
  pub no_larger : space live ≤ space before
  pub named : plans_of ds ≡ done
  pub stay_gone : (j : ℕ) → j < put → IsGone j before → IsGone j live
  pub are_done : All (IsDone put' live) done

collect-log : (gc : Bool) (left right : ℕ) (c : Config) → (collect gc left right c).log ≡ c.log
unfolding collect remove set_file
collect-log gc left right c = ground arith

-- What is in no part of a list is not in the list.
IsGone-put :
    (j put : ℕ) (p q r : Profile) {left right : ℕ} {live l s t : List Entry}
    → Pick (left, p) live l
    → Pick (right, q) l s
    → Pick (put, r) t s
    → j < put
    → IsGone j live
    → IsGone j t
IsGone-put j put p q r a b k h g =
    All-of_Pick (λ e. j ≢ e.0) k (omega arith)
      (Pick-All (λ e. j ≢ e.0) b (Pick-All (λ e. j ≢ e.0) a g).1).1

fault_not_ok : (c : Config) → ◌≢◌ {A = Result Config} fault (ok c)
fault_not_ok c e = cc

-- One round more, before the others.
Reached-next :
    (gc : Bool) (next : MergePlan) (c c' : Config) (put : ℕ) (before : List Entry)
    (done left : List MergePlan) (root : ℕ) (p q : Profile) (r s t : List Entry) (put' : ℕ)
    (live : List Entry) (ds : List Logged)
    → Inv c put before
    → next.id ≡ put
    → Pick (next.left, p) before r
    → Pick (next.right, q) r s
    → Pick (put, merged p q) t s
    → Reached (after_round gc next (merged p q) c) (suc put) t done left root c' put' live ds
    → Reached c put before
        (next ∷ done)
        left
        root
        c'
        put'
        live
        ((next, length (encode (merged p q))) ∷ ds)
Reached-next gc next c c' put before done left root p q r s t put' live ds inv new a b k reached =
    let under_left = (below_r gc next c p q put inv new a b).0 in
    let under_right = (below_s gc next c p q put inv new a b).0 in
    let gone_left : IsGone next.left t =
      All-of_Pick (λ e. next.left ≢ e.0) k (omega arith)
        (apart_left gc next c p q put inv new a b) in
    let gone_right : IsGone next.right t =
      All-of_Pick (λ e. next.right ≢ e.0) k (omega arith)
        (apart_right gc next c p q put inv new a b) in
    record {
      grown = omega (arith, reached.grown);
      inv = reached.inv;
      valid = reached.valid;
      same_total = λ w. reached.same_total w ∙ total_round w next.left next.right put p q a b k;
      logged =
          reached.logged
          ∙ ap (λ l. l ++ entries ds) (collect-log gc next.left next.right _)
          ∙ append_assoc c.log (merge_entry next (length (encode (merged p q)))) (entries ds);
      no_larger = omega (arith, reached.no_larger, round_space next.left next.right put p q a b k);
      named = ap (◌∷◌ next) reached.named;
      stay_gone =
          λ j h g. reached.stay_gone j (omega arith) (IsGone-put j put p q (merged p q) a b k h g);
      are_done = (
        record {
          left_gone = reached.stay_gone next.left (omega arith) gone_left;
          right_gone = reached.stay_gone next.right (omega arith) gone_right;
          left_below = omega (arith, reached.grown);
          right_below = omega (arith, reached.grown);
          id_below = omega (arith, reached.grown);
        },
        reached.are_done,
      );
    }

pub run_rounds-Reached :
    (gc : Bool) (done left : List MergePlan) (root : ℕ) (c c' : Config) (put : ℕ)
    (before : List Entry)
    → Inv c put before
    → Valid put (map (λ e. e.0) before) (done ++ left) root
    → run_rounds gc done c ≡ ok c'
    → (put' : ℕ) × (live : List Entry) × (ds : List Logged) × Reached c put before done left root c'
        put' live ds
unfolding run_rounds
run_rounds-Reached gc [] left root c c' put before inv v run =
    let same : c ≡ c' = cc in
    (
      put,
      before,
      [],
      record {
        grown = omega arith;
        inv = subst (λ d. Inv d put before) same inv;
        valid = v;
        same_total = λ w. refl;
        logged = ap (λ d. d.log) (sym same) ∙ sym (append-nil c.log);
        no_larger = omega arith;
        named = refl;
        stay_gone = λ j h g. g;
        are_done = tt;
      },
    )
run_rounds-Reached gc (next ∷ done) left root c c' put before inv (r, s, t, a, b, k, new, v) run =
    let (p, q, r', s', a', b', m) = picks before a b in
    let e : Entry = (put, merged p q) in
    let (t', k', n) = Pick-map_put (λ (d : Entry). d.0) e s' (subst (Pick put t) (sym m) k) in
    let c1 = after_round gc next (merged p q) c in
    let stored_left = (Stored-r gc next c p q put inv new a' b').0 in
    let stored_right = (Stored-s gc next c p q put inv new a' b').0 in
    let absent_new = inv.fresh next.id (omega arith) in
    elim (merge_one_lem gc next c p q stored_left stored_right absent_new inv.open_log) [
      | inr (faults, large) ↦
          absurd (fault_not_ok c' (sym (ap (λ m. m >>= run_rounds gc done) faults) ∙ run))
      | inl made ↦
          let (put', live, ds, reached) =
            run_rounds-Reached gc done left root c1 c' (suc put) t'
              (after_round-Inv gc next c p q put inv new a' b' k')
              (subst (λ u. Valid (suc put) u (done ++ left) root) (sym n) v)
              (sym (ap (λ m. m >>= run_rounds gc done) made) ∙ run) in
          (
            put',
            live,
            (next, length (encode (merged p q))) ∷ ds,
            Reached-next gc next c c' put before done left root p q r' s' t' put' live ds inv new a'
                b' k' reached,
          )
    ]
