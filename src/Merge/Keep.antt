-- ===== src/Merge/Keep.antt =====
-- A round keeps the invariant of the stage: the merge takes the place of the two profiles.

use wdedup.Prelude.{
  All-of_Pick, Distinct-of_Pick, ℕ, suc, ◌<◌, ◌≡◌, ◌≢◌, sym, ◌∙◌, Bool, List, [], some, arith, map,
  All, All-mono, All-map, All-both, Pick, Pick-All, Pick-map_of, Distinct, Pick-Distinct, subst,
}
use wdedup.Profile.{Profile}
use wdedup.ProfileFile.{encode}
use wdedup.ProfileFile.Stale.{AreStorable, IsStorable, stale, Ascending-stale, All-stale}
use wdedup.Tables.Laws.{merge_into-All, merge_into-Ascending}
use wdedup.Config.{Config, content, set_file, remove}
use wdedup.Plan.{MergePlan}
use wdedup.Merge.{collect}
use wdedup.Merge.Rounds.{Entry, Stored, Inv, merged, after_round, collect_keeps, collect-content}

module _ (gc : Bool) (plan : MergePlan) (c : Config) (p q : Profile) where
  abbrev next : Config
  next = after_round gc plan (merged p q) c

  next_keeps : (j : ℕ) → j ≢ plan.id → j ≢ plan.left → j ≢ plan.right → next.files j ≡ c.files j
  unfolding set_file
  next_keeps j h k l = collect_keeps gc plan.left plan.right j _ k l ∙ ground arith

  next_new :
      plan.id ≢ plan.left → plan.id ≢ plan.right → next.files plan.id ≡ some (encode (merged p q))
  unfolding set_file
  next_new k l = collect_keeps gc plan.left plan.right plan.id _ k l ∙ ground arith

  next_content : (j : ℕ) → j ≢ plan.id → content (c.files j) ≡ [] → content (next.files j) ≡ []
  unfolding set_file
  next_content j h e = collect-content gc plan.left plan.right j _ (ground arith)

  next-olog : next.olog ≡ c.olog
  unfolding collect remove set_file
  next-olog = ground arith

  Stored-next :
      (e : Entry) → e.0 ≢ plan.id → e.0 ≢ plan.left → e.0 ≢ plan.right → Stored c e → Stored next e
  Stored-next e h k l s = record {
    file = next_keeps e.0 h k l ∙ s.file;
    storable = s.storable;
    ascending = s.ascending;
    worded = s.worded;
  }

  Stored-new :
      plan.id ≢ plan.left
      → plan.id ≢ plan.right
      → Stored c (plan.left, p)
      → Stored c (plan.right, q)
      → Stored next (plan.id, merged p q)
  Stored-new k l s t = record {
    file = next_new k l;
    storable =
        merge_into-All IsStorable _ _ (λ i h. (h.0, omega arith)) (storable_stale p s.storable)
          (storable_stale q t.storable);
    ascending =
        merge_into-Ascending _ _ (Ascending-stale 0 p s.ascending)
          (Ascending-stale 0 q t.ascending);
    worded =
        merge_into-All (λ i. i.word ≢ []) _ _ (λ i h. h) (worded_stale p s.worded)
          (worded_stale q t.worded);
  }
    where
      storable_stale : (r : Profile) → AreStorable r → AreStorable (stale 0 r)
      storable_stale r =
          All-stale IsStorable 0 r (λ i h. (h.0, omega arith)) (λ i j h k. (h.0, k.1))

      worded_stale : (r : Profile) → All (λ i. i.word ≢ []) r → All (λ i. i.word ≢ []) (stale 0 r)
      worded_stale r = All-stale (λ i. i.word ≢ []) 0 r (λ i h. h) (λ i j h k. h)

  module _ (put : ℕ) {live r s : List Entry} (inv : Inv c put live) (new : plan.id ≡ put)
      (a : Pick (plan.left, p) live r) (b : Pick (plan.right, q) r s) where
    abbrev number : Entry → ℕ
    number e = e.0

    Distinct-r : All (λ y. plan.left ≢ y) (map number r) × Distinct (map number r)
    Distinct-r = Pick-Distinct (Pick-map_of number a) inv.distinct

    Distinct-s : All (λ y. plan.right ≢ y) (map number s) × Distinct (map number s)
    Distinct-s = Pick-Distinct (Pick-map_of number b) Distinct-r.1

    pub Stored-r : Stored c (plan.left, p) × All (Stored c) r
    Stored-r = Pick-All (Stored c) a inv.stored

    pub Stored-s : Stored c (plan.right, q) × All (Stored c) s
    Stored-s = Pick-All (Stored c) b Stored-r.1

    pub below_r : (plan.left < put) × All (λ e. e.0 < put) r
    below_r = Pick-All (λ e. e.0 < put) a inv.below

    pub below_s : (plan.right < put) × All (λ e. e.0 < put) s
    below_s = Pick-All (λ e. e.0 < put) b below_r.1

    pub apart_left : All (λ e. plan.left ≢ number e) s
    apart_left =
        (All-map (λ y. plan.left ≢ y) number s).1
          (Pick-All (λ y. plan.left ≢ y) (Pick-map_of number b) Distinct-r.0).1

    pub apart_right : All (λ e. plan.right ≢ number e) s
    apart_right = (All-map (λ y. plan.right ≢ y) number s).1 Distinct-s.0

    -- The other profiles stay as they are.
    others : All (Stored next) s
    others =
        All-mono _ (Stored next) s
          (λ e h. Stored-next e (omega arith) (λ k. h.1.1.0 (sym k)) (λ k. h.1.1.1 (sym k)) h.0)
          (All-both (Stored c) _ s Stored-s.1 (
            All-both (λ e. e.0 < put) _ s below_s.1
              (All-both (λ e. plan.left ≢ e.0) (λ e. plan.right ≢ e.0) s apart_left apart_right)))

    -- With the merged profile put among the others, and the next number to give.
    pub after_round-Inv : {t : List Entry} → Pick (put, merged p q) t s → Inv next (suc put) t
    after_round-Inv k = record {
      stored =
          All-of_Pick (Stored next) k (subst (λ j. Stored next (j, merged p q)) new made) others;
      fresh = λ j h. next_content j (omega arith) (inv.fresh j (omega arith));
      below =
          All-of_Pick (λ e. e.0 < suc put) k (omega arith)
            (All-mono _ _ s (λ e h. omega arith) below_s.1);
      distinct =
          Distinct-of_Pick (Pick-map_of number k) Distinct-s.1
            ((All-map (λ y. y ≢ put) number s).0 (All-mono _ _ s (λ e h. omega arith) below_s.1));
      open_log = next-olog ∙ inv.open_log;
    }
      where
        made : Stored next (plan.id, merged p q)
        made =
            Stored-new (omega (arith, below_r.0)) (omega (arith, below_s.0)) Stored-r.0 Stored-s.0
