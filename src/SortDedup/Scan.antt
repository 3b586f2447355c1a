-- ===== src/SortDedup/Scan.antt =====
-- What the loop over sorted items writes.
use Prim.Native.Nat.{Ordering}
use wdedup.Prelude.{
  ◌≡◌, refl, sym, ap, ◌∙◌, subst, Bool, true, false, List, [], ◌∷◌, ◌++◌, map, All, append_assoc,
  inl, inr, Bool-cases, if◌then◌else◌, arith,
}
use wdedup.Word.{Word, word_lt}
use wdedup.Word.Order.{word_lt_trans}
use wdedup.Profile.{Profile, push, repeated_item, single_item}
use wdedup.Profile.Status.{◌⊕◌, status, says, ⊕_assoc}
use wdedup.Profile.Ascending.{Above, Ascending}
use wdedup.Bloom.{decompose, reconstruct, difference}
use wdedup.Bloom.Order.{word_cmp_eq, word_cmp_gt}
use wdedup.Dedup.Items.{IsBloom, reconstruct_lem, difference_lem}
use wdedup.SortDedup.{SortItem, item_less, item_equal, write_item, write_groups}

-- The item is of a word of the text.
abbrev pub HasBloom : SortItem → Type 0
HasBloom i = IsBloom i.bloom

-- No item comes before the one ahead of it.
abbrev pub AreOrdered : SortItem → List SortItem → Type 0
AreOrdered i [] = Unit {0}
AreOrdered i (j ∷ l) = (item_less j i ≡ false) × AreOrdered j l

-- The items as occurrences of their words.
abbrev pub singles : List SortItem → Profile
singles = map (λ i. single_item (reconstruct i.bloom) i.occur)

-- Equal items are of one word, and have one bloom.
pub equal_items :
    (i j : SortItem) → HasBloom i → HasBloom j → item_equal i j ≡ true → i.bloom ≡ j.bloom
unfolding item_equal
equal_items i j (w, t, e) (v, s, f) h =
    let same = word_cmp_eq (reconstruct i.bloom) (reconstruct j.bloom) (
      sym (difference_lem i.bloom j.bloom (w, t, e) (v, s, f))
      ∙ is_eq (difference i.bloom j.bloom) h) in
    e
    ∙ ap (λ u. (decompose u).0)
        (sym (reconstruct_lem i.bloom (w, t, e)) ∙ same ∙ reconstruct_lem j.bloom (v, s, f))
    ∙ sym f
  where
    is_eq : (o : Ordering) → elim o [ Ordering.eq ↦ true | _ ↦ false ] ≡ true → o ≡ Ordering.eq
    is_eq Ordering.lt h = absurd (cc)
    is_eq Ordering.eq h = refl
    is_eq Ordering.gt h = absurd (cc)

-- Of two items neither equal nor the wrong way round the first comes before.
pub ordered_items :
    (i j : SortItem)
    → HasBloom i
    → HasBloom j
    → item_less j i ≡ false
    → item_equal j i ≡ false
    → word_lt (reconstruct i.bloom) (reconstruct j.bloom) ≡ true
unfolding item_less item_equal
ordered_items i j h k less equal =
    word_cmp_gt (reconstruct j.bloom) (reconstruct i.bloom)
      (sym (difference_lem j.bloom i.bloom k h) ∙ is_gt (difference j.bloom i.bloom) less equal)
  where
    is_gt :
        (o : Ordering)
        → elim o [ Ordering.lt ↦ true | _ ↦ false ] ≡ false
        → elim o [ Ordering.eq ↦ true | _ ↦ false ] ≡ false
        → o ≡ Ordering.gt
    is_gt Ordering.lt a b = absurd (cc)
    is_gt Ordering.eq a b = absurd (cc)
    is_gt Ordering.gt a b = refl

-- What the groups are written as, without the output before them.
unfoldable pub groups : SortItem → Bool → List SortItem → Profile
groups first alone [] = write_item first alone ∷ []
groups first alone (i ∷ l) =
    if item_equal i first then groups first false l else write_item first alone ∷ groups i true l

pub write_groups_lem :
    (l : List SortItem) (first : SortItem) (alone : Bool) (output : Profile)
    → write_groups first alone l output ≡ output ++ groups first alone l
unfolding write_groups groups push
write_groups_lem [] first alone output = refl
write_groups_lem (i ∷ l) first alone output = elim (Bool-cases (item_equal i first)) [
  | inl y ↦ rw y (write_groups_lem l first false output)
  | inr n ↦ rw n (
      write_groups_lem l i true (push output (write_item first alone))
      ∙ append_assoc output (write_item first alone ∷ []) (groups i true l))
]

write_item-word : (i : SortItem) (alone : Bool) → (write_item i alone).word ≡ reconstruct i.bloom
unfolding write_item
write_item-word i true = refl
write_item-word i false = refl

-- The order looks at the bloom only.
less_same : (i j k : SortItem) → j.bloom ≡ k.bloom → item_less i j ≡ item_less i k
unfolding item_less
less_same i j k e = ap (λ b. elim (difference i.bloom b) [ Ordering.lt ↦ true | _ ↦ false ]) e

AreOrdered-same :
    (i j : SortItem) (l : List SortItem) → i.bloom ≡ j.bloom → AreOrdered i l → AreOrdered j l
AreOrdered-same i j [] e h = tt
AreOrdered-same i j (k ∷ l) e (h, hs) = (sym (less_same k i j e) ∙ h, hs)

Above-groups :
    (l : List SortItem) (v : Word) (first : SortItem) (alone : Bool)
    → HasBloom first
    → All HasBloom l
    → AreOrdered first l
    → word_lt v (reconstruct first.bloom) ≡ true
    → Above v (groups first alone l)
unfolding groups
Above-groups [] v first alone b bs o h = (ap (word_lt v) (write_item-word first alone) ∙ h, tt)
Above-groups (i ∷ l) v first alone b (bi, bs) (o, os) h = elim (Bool-cases (item_equal i first)) [
  | inl y ↦
      subst
        (λ (c : Bool).
          Above v (if c then groups first false l else write_item first alone ∷ groups i true l))
        (sym y)
        (Above-groups l v first false b bs
          (AreOrdered-same i first l (equal_items i first bi b y) os) h)
  | inr n ↦
      subst
        (λ (c : Bool).
          Above v (if c then groups first false l else write_item first alone ∷ groups i true l))
        (sym n)
        (
          ap (word_lt v) (write_item-word first alone) ∙ h,
          Above-groups l v i true bi bs os (
              word_lt_trans v (reconstruct first.bloom) (reconstruct i.bloom) h
                (ordered_items first i b bi o n)),
        )
]

pub groups-Ascending :
    (l : List SortItem) (first : SortItem) (alone : Bool)
    → HasBloom first
    → All HasBloom l
    → AreOrdered first l
    → Ascending (groups first alone l)
unfolding groups
groups-Ascending [] first alone b bs o = (tt, tt)
groups-Ascending (i ∷ l) first alone b (bi, bs) (o, os) = elim (Bool-cases (item_equal i first)) [
  | inl y ↦
      subst
        (λ (c : Bool).
          Ascending (if c then groups first false l else write_item first alone ∷ groups i true l))
        (sym y)
        (groups-Ascending l first false b bs
          (AreOrdered-same i first l (equal_items i first bi b y) os))
  | inr n ↦
      subst
        (λ (c : Bool).
          Ascending (if c then groups first false l else write_item first alone ∷ groups i true l))
        (sym n)
        (
          Above-groups l (write_item first alone).word i true bi bs os (
              ap (λ u. word_lt u (reconstruct i.bloom)) (write_item-word first alone)
              ∙ ordered_items first i b bi o n),
          groups-Ascending l i true bi bs os,
        )
]

-- A second item of the word makes it repeated.
says-again :
    (w : Word) (first i : SortItem) (alone : Bool)
    → reconstruct i.bloom ≡ reconstruct first.bloom
    → says w (write_item first false)
      ≡ says w (write_item first alone) ⊕ says w (single_item (reconstruct i.bloom) i.occur)
unfolding write_item
says-again w first i true e =
    subst
      (λ u.
        says w (repeated_item (reconstruct first.bloom))
        ≡ says w (single_item (reconstruct first.bloom) first.occur)
          ⊕ says w (single_item u i.occur))
      (sym e) (ground arith)
says-again w first i false e =
    subst
      (λ u.
        says w (repeated_item (reconstruct first.bloom))
        ≡ says w (repeated_item (reconstruct first.bloom)) ⊕ says w (single_item u i.occur))
      (sym e) (ground arith)

pub status-groups :
    (w : Word) (l : List SortItem) (first : SortItem) (alone : Bool)
    → HasBloom first
    → All HasBloom l
    → status w (groups first alone l) ≡ says w (write_item first alone) ⊕ status w (singles l)
unfolding groups status write_item
status-groups w [] first alone b bs = refl
status-groups w (i ∷ l) first alone b (bi, bs) = elim (Bool-cases (item_equal i first)) [
  | inl y ↦
      ap
        (λ (c : Bool).
          status w (if c then groups first false l else write_item first alone ∷ groups i true l))
        y
      ∙ status-groups w l first false b bs
      ∙ ap (λ x. x ⊕ status w (singles l))
          (says-again w first i alone (ap reconstruct (equal_items i first bi b y)))
      ∙ ⊕_assoc (says w (write_item first alone))
          (says w (single_item (reconstruct i.bloom) i.occur)) (status w (singles l))
  | inr n ↦
      ap
        (λ (c : Bool).
          status w (if c then groups first false l else write_item first alone ∷ groups i true l))
        n
      ∙ ap (◌⊕◌ (says w (write_item first alone))) (status-groups w l i true bi bs)
]
