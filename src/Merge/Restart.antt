-- ===== src/Merge/Restart.antt =====
-- The merge stage started again on the log of a run that was stopped.
use wdedup.Prelude.{
  ℕ, ◌+◌, ◌≤◌, ◌^◌, ◌≡◌, refl, sym, ap, ◌∙◌, Bool, List, [], ◌∷◌, ◌++◌, some, arith, map, All,
  length, length-append, append-nil, subst, drop, ◌⊎◌, inl, inr,
}
use wdedup.Errors.{ok, ◌>>=◌}
use wdedup.Serial.{put_char}
use wdedup.Config.{Config}
use wdedup.Plan.{MergePlan, Planner}
use wdedup.Plan.Valid.{Valid}
use wdedup.Merge.{after_recovery, recover, merge_loop, wmerge, end_mark}
use wdedup.Merge.Rounds.{Entry, Inv}
use wdedup.Merge.Stage.{Merges, merge_loop-Merges, blank, root_only}
use wdedup.Merge.Logged.{
  Logged, plans_of, entries, collect_all, IsSized, recover_log, recover_nothing, recover_end,
}
use wdedup.Merge.Run.{run_rounds, Reached, run_rounds-Reached}
use wdedup.Merge.Resume.{
  IsKept, collect_all_keeps, resumed_at, live-AreKept, Stored-kept, resumed-Inv, done-AreSized,
  IsAsLeft,
}

append_cancel_left : (l s t : List ℕ) → l ++ s ≡ l ++ t → s ≡ t
append_cancel_left [] s t e = e
append_cancel_left (x ∷ l) s t e = append_cancel_left l s t (cc)

module _ (planner : Planner) (gc : Bool) (again : Config) where
  wmerge_log :
      (s : List ℕ)
      → again.ilog ≡ some s
      → wmerge planner gc again
        ≡ (recover gc (length s + 1) planner blank s again >>= after_recovery gc)
  unfolding wmerge
  wmerge_log s i = rw i refl

  module _ (c c' : Config) (put put' : ℕ) (before live : List Entry) (done left : List MergePlan)
      (ds : List Logged) (reached : Reached c put before done left planner.root c' put' live ds)
      (begun : planner.cursor ≡ 0) (split : planner.plans ≡ done ++ left)
      (fits : put + length planner.plans ≤ 2 ^ 64)
      (same : (j : ℕ) → IsKept done j → IsAsLeft c' again j) where
    at_start : drop planner.cursor planner.plans ≡ plans_of ds ++ left
    at_start =
        ap (λ k. drop k planner.plans) begun ∙ split ∙ ap (λ l. l ++ left) (sym reached.named)

    ds-AreSized : All IsSized (plans_of ds)
    ds-AreSized = subst (All IsSized) (sym reached.named) (
        done-AreSized put' live done
          (omega (arith, fits, reached.grown, ap length split, length-append done left))
          reached.are_done)

    -- The log ends behind entries of the rounds.
    resumed-Merges :
        again.ilog ≡ some (entries ds ++ []) → Merges before planner.root (wmerge planner gc again)
    unfolding after_recovery
    resumed-Merges i =
        let (fuel, cursor, last, e, run) =
          recover_log gc ds left planner blank [] again at_start ds-AreSized in
        let started =
          wmerge_log (entries ds ++ []) i
          ∙ ap (λ m. m >>= after_recovery gc)
              (run
                ∙ recover_nothing gc fuel (record planner { cursor = cursor }) last
                    (collect_all gc (plans_of ds) again))
          ∙ ap
              (λ l.
                merge_loop gc (length planner.plans + 1) (record planner { cursor = cursor }) last
                  (resumed_at gc l again))
              reached.named in
        elim (merge_loop-Merges gc left (length planner.plans + 1)
          (record planner { cursor = cursor }) last (resumed_at gc done again) put' live
          (omega (arith, ap length split, length-append done left)) e
          (resumed-Inv gc done c' again put' live reached.inv reached.are_done same)
          reached.valid) [
            | inr (faults, large) ↦ inr (started ∙ faults, omega (arith, large, reached.no_larger))
            | inl (d, p, runs, stored, small, says) ↦ inl (
              d,
              p,
              started ∙ runs,
              stored,
              omega (arith, small, reached.no_larger),
              λ w. says w ∙ reached.same_total w,
            )
          ]

    -- The log has the end of the stage behind the entries of all the rounds.
    finished-Merges :
        (rest : List ℕ)
        → left ≡ []
        → again.ilog ≡ some (entries ds ++ (put_char end_mark ++ rest))
        → Merges before planner.root (wmerge planner gc again)
    unfolding after_recovery
    finished-Merges rest none_left i =
        let (fuel, cursor, last, e, run) =
          recover_log gc ds left planner blank (put_char end_mark ++ rest) again at_start
            ds-AreSized in
        let d = record (collect_all gc (plans_of ds) again) { ilog = some rest } in
        let keeps = λ (j : ℕ) (k : IsKept done j).
          collect_all_keeps gc (plans_of ds) j again
            (subst (λ l. IsKept l j) (sym reached.named) k) in
        let stored =
          Stored-kept c' again d done live same keeps (live-AreKept put' live done reached.are_done)
            reached.inv.stored in
        let (p, s, small, says) =
          root_only d planner.root live stored (
            subst (λ l. Valid put' (map (λ e. e.0) live) l planner.root) none_left reached.valid) in
        inl (
          d,
          p,
          wmerge_log (entries ds ++ (put_char end_mark ++ rest)) i
              ∙ ap (λ m. m >>= after_recovery gc)
                  (run
                    ∙ recover_end gc fuel (record planner { cursor = cursor }) last rest
                        (collect_all gc (plans_of ds) again) (e ∙ none_left)),
          s,
          omega (arith, small, reached.no_larger),
          λ w. says w ∙ reached.same_total w,
        )

-- A run of the stage on profiles `before` carries out the rounds for the first plans `done`, adds
-- `s` to the log by them, and is stopped behind them or in the next one before any of its output
-- reached the disk. The stage is started again in a directory where every file is as they left it,
-- except that profiles which they merged away may be there or be removed, and that files may be
-- there that are empty. If the plans were valid and their numbers fit a `size_t`, then a start on the
-- log `s` returns the root, whose file holds a sorted table that says of every word what the
-- profiles said together before the first run; and so does a start on `s`, the end mark and the
-- log of later stages, if no plan was left. Only if the profiles take more than 4096 bytes
-- together, the start may write out of bounds instead, at a word that is cut by the end of a buffer.
pub wmerge-run_rounds :
    (planner : Planner) (gc gc_again : Bool) (c c' again : Config) (put : ℕ) (before : List Entry)
    (done left : List MergePlan) (s rest : List ℕ)
    → planner.cursor ≡ 0
    → planner.plans ≡ done ++ left
    → put + length planner.plans ≤ 2 ^ 64
    → Inv c put before
    → Valid put (map (λ e. e.0) before) planner.plans planner.root
    → run_rounds gc done c ≡ ok c'
    → c'.log ≡ c.log ++ s
    → ((j : ℕ) → IsKept done j → IsAsLeft c' again j)
    → (again.ilog ≡ some s) ⊎ ((left ≡ []) × (again.ilog ≡ some (s ++ (put_char end_mark ++ rest))))
    → Merges before planner.root (wmerge planner gc_again again)
wmerge-run_rounds planner gc gc_again c c' again put before done left s rest begun split fits inv v
      run log same i =
    let (put', live, ds, reached) =
      run_rounds-Reached gc done left planner.root c c' put before inv
        (subst (λ l. Valid put (map (λ e. e.0) before) l planner.root) split v) run in
    let logged = append_cancel_left c.log s (entries ds) (sym log ∙ reached.logged) in
    elim i [
      | inl h ↦
          resumed-Merges planner gc_again again c c' put put' before live done left ds reached begun
            split fits same (h ∙ ap some (logged ∙ sym (append-nil (entries ds))))
      | inr (h, k) ↦
          finished-Merges planner gc_again again c c' put put' before live done left ds reached
            begun split fits same rest h
            (k ∙ ap (λ l. some (l ++ (put_char end_mark ++ rest))) logged)
    ]
