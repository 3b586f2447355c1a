-- ===== src/Dedup/Pour.antt =====
-- What the deduplication pours after the insertion of many words.
use wdedup.Prelude.{
  ℕ, ◌≡◌, ◌≢◌, sym, ap, ◌∙◌, subst, Bool, true, false, List, [], ◌∷◌, map, arith, All, All-mono,
  All-map, inl, inr, if◌then◌else◌,
}
use wdedup.Word.{Word}
use wdedup.Profile.{ProfileItem, Profile, single_item}
use wdedup.Profile.Status.{absent, ◌⊕◌, status, says, ⊕_assoc, ⊕_absent}
use wdedup.Profile.Ascending.{Ascending}
use wdedup.ProfileFile.Stale.{AreStorable, IsStorable}
use wdedup.Rbtree.{Rbtree}
use wdedup.Dedup.{pour_item, TreeDedup, new_dedup, insert_word, pour}
use wdedup.Dedup.Items.{AreItems, IsItem, table, pour_item-IsStorable, pour_item-worded}
use wdedup.Dedup.Refine.{IsOccurrence, IsSorted, pour-table, insert_word-Inserts}

-- Occurrences of words as a table of its own: every one is an item that occurs once.
abbrev pub occurrences : List (Word × ℕ) → Profile
occurrences = map (λ (w, off). single_item w off)

module _ (rb : Rbtree) where
  open rb use {init, items, items-init}

  -- The insertion of words in turn, until one of them is refused.
  unfoldable pub insert_each : List (Word × ℕ) → TreeDedup rb → Bool × TreeDedup rb
  insert_each [] d = (true, d)
  insert_each ((word, off) ∷ l) d =
      let (done, d') = insert_word rb word off d in
      let rest = insert_each l d' in if done then rest else (false, d')

  pub new_dedup-IsSorted : (vmsize : ℕ) → IsSorted rb (new_dedup rb vmsize)
  unfolding new_dedup
  new_dedup-IsSorted vmsize = record {
    are_items = subst AreItems (sym items-init) tt;
    ascending = subst (λ l. Ascending (table l)) (sym items-init) tt;
  }

  pub status-new_dedup : (w : Word) (vmsize : ℕ) → status w (pour rb (new_dedup rb vmsize)) ≡ absent
  unfolding new_dedup status
  status-new_dedup w vmsize =
      ap (status w) (pour-table rb (new_dedup rb vmsize) ∙ ap table items-init)

  -- Nothing is lost and nothing is added.
  insert_each_lem :
      (l : List (Word × ℕ)) (d d' : TreeDedup rb)
      → All IsOccurrence l
      → IsSorted rb d
      → insert_each l d ≡ (true, d')
      → IsSorted rb d'
        × ((w : Word) → status w (pour rb d') ≡ status w (pour rb d) ⊕ status w (occurrences l))
  unfolding insert_each status
  insert_each_lem [] d d' a s h =
      let e : d ≡ d' = ap (λ x. x.1) h in
      (subst (IsSorted rb) e s, λ w. rw (sym e) (sym (⊕_absent (status w (pour rb d)))))
  insert_each_lem ((word, off) ∷ l) d d' ((t, o), a) s h =
      elim (insert_word-Inserts rb word off d t o s) [
        | inl (e, full, new) ↦ absurd (ground arith)
        | inr (d1, e, s1, says1) ↦
            let (s2, says2) = insert_each_lem l d1 d' a s1 (rw e at h) in
            (
              s2,
              λ w.
                  says2 w
                  ∙ ap (λ x. x ⊕ status w (occurrences l)) (says1 w)
                  ∙ ⊕_assoc (status w (pour rb d)) (says w (single_item word off))
                      (status w (occurrences l)),
            )
      ]

  -- What a sorted deduplication pours can be stored.
  pub pour-sorted :
      (d : TreeDedup rb)
      → IsSorted rb d
      → Ascending (pour rb d)
        × AreStorable (pour rb d)
        × All (λ (i : ProfileItem). i.word ≢ []) (pour rb d)
  pour-sorted d s =
      let e = sym (pour-table rb d) in
      (
        subst Ascending e s.ascending,
        subst AreStorable e (
            (All-map IsStorable pour_item (items d.root)).0
              (All-mono IsItem _ (items d.root) pour_item-IsStorable s.are_items)),
        subst (All (λ (i : ProfileItem). i.word ≢ [])) e (
            (All-map (λ (i : ProfileItem). i.word ≢ []) pour_item (items d.root)).0
              (All-mono IsItem _ (items d.root) pour_item-worded s.are_items)),
      )

  -- If words of the text are inserted in turn into an empty working memory and none is refused, then
  -- what is poured is a sorted table that a profile can store, whose words are not empty, and
  -- that says of every word what the occurrences among those inserted say: nothing, the
  -- one offset, or that there is more than one.
  pub insert_each-pour :
      (l : List (Word × ℕ)) (vmsize : ℕ) (d : TreeDedup rb)
      → All IsOccurrence l
      → insert_each l (new_dedup rb vmsize) ≡ (true, d)
      → Ascending (pour rb d)
        × AreStorable (pour rb d)
        × All (λ (i : ProfileItem). i.word ≢ []) (pour rb d)
        × ((w : Word) → status w (pour rb d) ≡ status w (occurrences l))
  insert_each-pour l vmsize d a h =
      let (s, says_all) =
        insert_each_lem l (new_dedup rb vmsize) d a (new_dedup-IsSorted vmsize) h in
      let (ascending, storable, worded) = pour-sorted d s in
      (
        ascending,
        storable,
        worded,
        λ w. says_all w ∙ ap (λ x. x ⊕ status w (occurrences l)) (status-new_dedup w vmsize),
      )
