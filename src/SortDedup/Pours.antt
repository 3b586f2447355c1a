-- ===== src/SortDedup/Pours.antt =====
-- The deduplication by sorting keeps the promise of the one by a tree.

use wdedup.Prelude.{
  ℕ, ◌<◌, ◌^◌, ◌≡◌, ◌≢◌, refl, sym, ap, ap₂, ◌∙◌, subst, Bool, true, false, List, [], ◌∷◌, ◌++◌,
  map, All, All-mono, arith, Option, none, some, if◌then◌else◌, append_assoc, append-nil, inl, inr,
  Bool-cases,
}
use wdedup.Word.{Word, NoNull}
use wdedup.Profile.{ProfileItem, Profile, single_item}
use wdedup.Profile.Status.{status}
use wdedup.Profile.Unique.{IsPlain, ArePlain}
use wdedup.Profile.Ascending.{Ascending}
use wdedup.ProfileFile.Stale.{AreStorable, IsStorable}
use wdedup.Bloom.{decompose}
use wdedup.Bloom.Reconstruct.{reconstruct-decompose}
use wdedup.Memory.{Memory, Block, alloc}
use wdedup.Dedup.Items.{reconstruct_lem}
use wdedup.Dedup.Refine.{IsOccurrence}
use wdedup.Dedup.Pour.{occurrences}
use wdedup.SortDedup.{
  SortItem, SortDedup, sort_item_size, new_sort_dedup, item_equal, add_word, write_item,
  write_groups, pour_sorted,
}
use wdedup.SortDedup.Sorting.{
  IsPermutation, no_items, InOrder, Sorter, All-IsPermutation, status-IsPermutation,
}
use wdedup.SortDedup.Scan.{
  HasBloom, AreOrdered, singles, groups, write_groups_lem, groups-Ascending, status-groups,
}

-- The insertion of words in turn, until one of them is refused.
unfoldable pub add_each : List (Word × ℕ) → SortDedup → Bool × SortDedup
add_each [] d = (true, d)
add_each ((word, off) ∷ l) d =
    let (done, d') = add_word word off d in
    let rest = add_each l d' in if done then rest else (false, d')

-- The item of an occurrence.
abbrev item_of : Word × ℕ → SortItem
item_of (w, off) = record { bloom = (decompose w).0; occur = off }

add_word_lem :
    (word : Word) (off : ℕ) (d d' : SortDedup)
    → add_word word off d ≡ (true, d')
    → d'.stored ≡ d.stored ++ item_of (word, off) ∷ []
unfolding add_word
add_word_lem [] off d d' h = absurd (cc)
add_word_lem (c ∷ word) off d d' h =
    by_alloc (alloc sort_item_size (decompose (c ∷ word)).1 d.wmman) h
  where
    item : SortItem
    item = record { bloom = (decompose (c ∷ word)).0; occur = off }

    by_alloc :
        (o : Option (Memory × Block))
        → ◌≡◌ {A = Bool × SortDedup}
            (elim o [
              | none ↦ (false, d)
              | some (m, b) ↦ (true, record { wmman = m; stored = d.stored ++ item ∷ [] })
            ])
            (true, d')
        → d'.stored ≡ d.stored ++ item ∷ []
    by_alloc none e = absurd (cc)
    by_alloc (some (m, b)) e = ap (λ (x : Bool × SortDedup). x.1.stored) (sym e)

-- All the words were inserted: the items are those of the words, in their order.
add_each_lem :
    (l : List (Word × ℕ)) (d d' : SortDedup)
    → add_each l d ≡ (true, d')
    → d'.stored ≡ d.stored ++ map item_of l
unfolding add_each
add_each_lem [] d d' h =
    ap (λ (x : Bool × SortDedup). x.1.stored) (sym h) ∙ sym (append-nil d.stored)
add_each_lem ((word, off) ∷ l) d d' h =
    by_first (add_word word off d) refl h (λ x k. add_each_lem l x d' k)
  where
    by_first :
        (x : Bool × SortDedup)
        → add_word word off d ≡ x
        → (if x.0 then add_each l x.1 else (false, x.1)) ≡ (true, d')
        → ((y : SortDedup) → add_each l y ≡ (true, d') → d'.stored ≡ y.stored ++ map item_of l)
        → d'.stored ≡ d.stored ++ map item_of ((word, off) ∷ l)
    by_first (false, x) e k rest = absurd (cc)
    by_first (true, x) e k rest =
        rest x k
        ∙ ap (λ u. u ++ map item_of l) (add_word_lem word off d x e)
        ∙ append_assoc d.stored (item_of (word, off) ∷ []) (map item_of l)

-- Items of words, whose offsets fit in 64 bits.
abbrev HasRoom : SortItem → Type 0
HasRoom i = HasBloom i × (i.occur < 2 ^ 64)

items-HaveRoom : (l : List (Word × ℕ)) → All IsOccurrence l → All HasRoom (map item_of l)
items-HaveRoom [] a = tt
items-HaveRoom ((w, off) ∷ l) ((t, o), a) = (((w, t, refl), omega arith), items-HaveRoom l a)

-- The items of the occurrences, as occurrences again.
singles-items : (l : List (Word × ℕ)) → All IsOccurrence l → singles (map item_of l) ≡ occurrences l
singles-items [] a = refl
singles-items ((w, off) ∷ l) ((t, o), a) =
    ap₂ (λ u p. single_item u off ∷ p) (reconstruct-decompose w t.no_null t.bytes)
      (singles-items l a)

abbrev IsWhole : ProfileItem → Type 0
IsWhole i = IsStorable i × (i.word ≢ []) × IsPlain i

write_item-IsWhole : (i : SortItem) (alone : Bool) → HasRoom i → IsWhole (write_item i alone)
unfolding write_item
write_item-IsWhole i true ((w, t, e), s) =
    let same = sym (reconstruct_lem i.bloom (w, t, e)) in
    ((subst NoNull same t.no_null, s), λ h. t.nonempty (same ∙ h), λ h. absurd (cc))
write_item-IsWhole i false ((w, t, e), s) =
    let same = sym (reconstruct_lem i.bloom (w, t, e)) in
    ((subst NoNull same t.no_null, omega arith), λ h. t.nonempty (same ∙ h), λ h. refl)

groups-AreWhole :
    (l : List SortItem) (first : SortItem) (alone : Bool)
    → HasRoom first
    → All HasRoom l
    → All IsWhole (groups first alone l)
unfolding groups
groups-AreWhole [] first alone b bs = (write_item-IsWhole first alone b, tt)
groups-AreWhole (i ∷ l) first alone b (bi, bs) = elim (Bool-cases (item_equal i first)) [
  | inl y ↦
      subst
        (λ (c : Bool).
          All IsWhole
            (if c then groups first false l else write_item first alone ∷ groups i true l))
        (sym y) (groups-AreWhole l first false b bs)
  | inr n ↦
      subst
        (λ (c : Bool).
          All IsWhole
            (if c then groups first false l else write_item first alone ∷ groups i true l))
        (sym n) (write_item-IsWhole first alone b, groups-AreWhole l i true bi bs)
]

-- A sorted table that can be stored, which says what the items say.
abbrev pub Poured : List SortItem → Profile → Type 0
Poured l p =
    Ascending p
    × AreStorable p
    × All (λ (i : ProfileItem). i.word ≢ []) p
    × ArePlain p
    × ((w : Word) → status w p ≡ status w (singles l))

Poured-groups :
    (first : SortItem) (l : List SortItem)
    → AreOrdered first l
    → All HasRoom (first ∷ l)
    → Poured (first ∷ l) (groups first true l)
unfolding status write_item
Poured-groups first l o ((b, s), bs) =
    let blooms = All-mono HasRoom HasBloom l (λ i h. h.0) bs in
    let whole = groups-AreWhole l first true (b, s) bs in
    (
      groups-Ascending l first true b blooms o,
      All-mono IsWhole IsStorable _ (λ i h. h.0) whole,
      All-mono IsWhole _ _ (λ i h. h.1) whole,
      All-mono IsWhole IsPlain _ (λ i h. h.2) whole,
      λ w. status-groups w l first true b blooms,
    )

Poured-sorted :
    (l s : List SortItem)
    → IsPermutation l s
    → InOrder s
    → All HasRoom l
    → Poured l (elim s [ [] ↦ [] | i ∷ m ↦ write_groups i true m [] ])
Poured-sorted [] [] no_items o a = (tt, tt, tt, tt, λ w. refl)
Poured-sorted (_ ∷ _) [] p o a = elim p [ ]
Poured-sorted l (i ∷ m) p o a =
    let (ascending, storable, worded, plain, says_all) =
      Poured-groups i m o (All-IsPermutation HasRoom p a) in
    subst (Poured l) (sym (write_groups_lem m i true []))
      (ascending, storable, worded, plain, λ w. says_all w ∙ sym (status-IsPermutation w p))

module _ (sorter : Sorter) where
  open sorter use {sort, sort-IsPermutation, sort-InOrder}

  pour_sorted-Poured :
      (l : List SortItem) (m : Memory)
      → All HasRoom l
      → Poured l (pour_sorted sort (record { wmman = m; stored = l }))
  unfolding pour_sorted
  pour_sorted-Poured [] m a = (tt, tt, tt, tt, λ w. refl)
  pour_sorted-Poured (i ∷ l) m a =
      Poured-sorted (i ∷ l) (sort (i ∷ l)) (sort-IsPermutation (i ∷ l))
        (sort-InOrder (i ∷ l) (All-mono HasRoom HasBloom (i ∷ l) (λ j h. h.0) a)) a

  pub add_each-Poured :
      (l : List (Word × ℕ)) (vmsize : ℕ) (d : SortDedup)
      → All IsOccurrence l
      → add_each l (new_sort_dedup vmsize) ≡ (true, d)
      → Poured d.stored (pour_sorted sort d)
  unfolding new_sort_dedup
  add_each-Poured l vmsize d a h =
      pour_sorted-Poured d.stored d.wmman (
        subst (All HasRoom) (sym (add_each_lem l (new_sort_dedup vmsize) d h)) (items-HaveRoom l a))

  -- If words of the text are inserted in turn into an empty deduplication by sorting and none
  -- is refused, then what is poured, with any function that sorts its items, is a sorted table that
  -- a profile can store, whose words are not empty, and that says of every word what the
  -- occurrences among those inserted say: nothing, the one offset, or that there is more than one.
  pub add_each-pour_sorted :
      (l : List (Word × ℕ)) (vmsize : ℕ) (d : SortDedup)
      → All IsOccurrence l
      → add_each l (new_sort_dedup vmsize) ≡ (true, d)
      → Ascending (pour_sorted sort d)
        × AreStorable (pour_sorted sort d)
        × All (λ (i : ProfileItem). i.word ≢ []) (pour_sorted sort d)
        × ((w : Word) → status w (pour_sorted sort d) ≡ status w (occurrences l))
  unfolding new_sort_dedup
  add_each-pour_sorted l vmsize d a h =
      let (ascending, storable, worded, plain, says_all) = add_each-Poured l vmsize d a h in
      (
        ascending,
        storable,
        worded,
        λ w.
            says_all w
            ∙ ap (λ s. status w (singles s)) (add_each_lem l (new_sort_dedup vmsize) d h)
            ∙ ap (status w) (singles-items l a),
      )
