-- ===== src/Dedup/Items.antt =====
-- The lists of tree items, seen as the tables that `pour` makes of them.
use Prim.Native.Nat.{Ordering}
use wdedup.Prelude.{
  ◌<◌, ◌^◌, ◌≡◌, ◌≢◌, refl, sym, ap, ap₂, ◌∙◌, subst, true, List, [], ◌∷◌, ◌++◌, none, map, arith,
  All, ◌⊎◌, inl, inr, append_assoc, append-nil,
}
use wdedup.Word.{Word, NoNull, AreBytes, word_lt}
use wdedup.Profile.{Profile, push}
use wdedup.Profile.Status.{◌⊕◌, status, says, ⊕_swap}
use wdedup.Profile.Ascending.{Above, Ascending, Above-mono}
use wdedup.ProfileFile.Stale.{IsStorable}
use wdedup.Bloom.{Bloom, decompose, reconstruct, difference, word_cmp}
use wdedup.Bloom.Order.{difference-decompose, word_cmp_lt, word_cmp_gt}
use wdedup.Bloom.Reconstruct.{reconstruct-decompose}
use wdedup.Rbtree.{TreeItem, find_in, insert_in}
use wdedup.Dedup.{pour_item, pour_items}

-- The words that the program can tell apart: bytes, no terminator, and at least one.
pub record IsText (w : Word) : Type 0 where
  pub no_null : NoNull w
  pub bytes : AreBytes w
  pub nonempty : w ≢ []

-- The bloom of such a word.
abbrev pub IsBloom : Bloom → Type 0
IsBloom b = (w : Word) × IsText w × (b ≡ (decompose w).0)

-- An item of the tree: the bloom of a word, and an offset of eight bytes.
abbrev pub IsItem : TreeItem → Type 0
IsItem i = IsBloom i.bloom × (i.occur < 2 ^ 64)

abbrev pub AreItems : List TreeItem → Type 0
AreItems = All IsItem

pub reconstruct_lem : (b : Bloom) (h : IsBloom b) → reconstruct b ≡ h.0
reconstruct_lem b (w, t, e) = ap reconstruct e ∙ reconstruct-decompose w t.no_null t.bytes

-- Items compare as their words do.
pub difference_lem :
    (a b : Bloom)
    → IsBloom a
    → IsBloom b
    → difference a b ≡ word_cmp (reconstruct a) (reconstruct b)
difference_lem a b (u, s, e) (v, t, f) =
    ap₂ difference e f
    ∙ difference-decompose u v s.no_null s.bytes t.no_null t.bytes
    ∙ ap₂ word_cmp (sym (reconstruct_lem a (u, s, e))) (sym (reconstruct_lem b (v, t, f)))

-- The table of a list of items.
abbrev pub table : List TreeItem → Profile
table = map pour_item

pub pour_items-table :
    (l : List TreeItem) (output : Profile) → pour_items l output ≡ output ++ table l
unfolding pour_items push
pour_items-table [] output = sym (append-nil output)
pour_items-table (i ∷ l) output =
    pour_items-table l _ ∙ append_assoc output (pour_item i ∷ []) (table l)

pub pour_item-word : (i : TreeItem) → (pour_item i).word ≡ reconstruct i.bloom
unfolding pour_item
pour_item-word i = ground arith

pub Ordering-cases : (o : Ordering) → (o ≡ Ordering.lt) ⊎ ((o ≡ Ordering.eq) ⊎ (o ≡ Ordering.gt))
Ordering-cases Ordering.lt = inl refl
Ordering-cases Ordering.eq = inr (inl refl)
Ordering-cases Ordering.gt = inr (inr refl)

insert_in_cases {ℓ} :
    (P : List TreeItem → Type ℓ) (i j : TreeItem) (l : List TreeItem)
    → (difference i.bloom j.bloom ≡ Ordering.lt → P (i ∷ j ∷ l))
    → (difference i.bloom j.bloom ≢ Ordering.lt → P (j ∷ insert_in i l))
    → P (insert_in i (j ∷ l))
unfolding insert_in
insert_in_cases P i j l lt ge = elim (Ordering-cases (difference i.bloom j.bloom)) [
  | inl e ↦ rw (e, insert_in) (lt e)
  | inr (inl e) ↦ rw (e, insert_in) (ge (λ f. cc))
  | inr (inr e) ↦ rw (e, insert_in) (ge (λ f. cc))
]

pub status-insert_in :
    (w : Word) (i : TreeItem) (l : List TreeItem)
    → status w (table (insert_in i l)) ≡ says w (pour_item i) ⊕ status w (table l)
unfolding status insert_in
status-insert_in w i [] = refl
status-insert_in w i (j ∷ l) =
    insert_in_cases (λ m. status w (table m) ≡ says w (pour_item i) ⊕ status w (table (j ∷ l))) i j
      l (λ lt. refl)
      λ ge.
        ap (◌⊕◌ (says w (pour_item j))) (status-insert_in w i l)
        ∙ ⊕_swap (says w (pour_item j)) (says w (pour_item i)) (status w (table l))

Above-insert_in :
    (v : Word) (i : TreeItem) (l : List TreeItem)
    → word_lt v (pour_item i).word ≡ true
    → Above v (table l)
    → Above v (table (insert_in i l))
unfolding insert_in
Above-insert_in v i [] h a = (h, tt)
Above-insert_in v i (j ∷ l) h a =
    insert_in_cases (λ m. Above v (table m)) i j l (λ lt. (h, a))
      λ ge. (a.0, Above-insert_in v i l h a.1)

find_none_step :
    (b : Bloom) (j : TreeItem) (l : List TreeItem)
    → find_in b (j ∷ l) ≡ none
    → (difference b j.bloom ≢ Ordering.eq) × (find_in b l ≡ none)
unfolding find_in
find_none_step b j l h = (λ e. ground arith, ground arith)

-- The comparison of items, as that of the words in the table.
item_lt :
    (i j : TreeItem)
    → IsBloom i.bloom
    → IsBloom j.bloom
    → difference i.bloom j.bloom ≡ Ordering.lt
    → word_lt (pour_item i).word (pour_item j).word ≡ true
item_lt i j bi bj e =
    rw (pour_item-word i, pour_item-word j)
      (word_cmp_lt _ _ (sym (difference_lem i.bloom j.bloom bi bj) ∙ e))

item_gt :
    (i j : TreeItem)
    → IsBloom i.bloom
    → IsBloom j.bloom
    → difference i.bloom j.bloom ≡ Ordering.gt
    → word_lt (pour_item j).word (pour_item i).word ≡ true
item_gt i j bi bj e =
    rw (pour_item-word i, pour_item-word j)
      (word_cmp_gt _ _ (sym (difference_lem i.bloom j.bloom bi bj) ∙ e))

not_lt_eq : (o : Ordering) → o ≢ Ordering.lt → o ≢ Ordering.eq → o ≡ Ordering.gt
not_lt_eq Ordering.lt h k = absurd (h refl)
not_lt_eq Ordering.eq h k = absurd (k refl)
not_lt_eq Ordering.gt h k = refl

pub insert_in-Ascending :
    (i : TreeItem) (l : List TreeItem)
    → IsBloom i.bloom
    → AreItems l
    → find_in i.bloom l ≡ none
    → Ascending (table l)
    → Ascending (table (insert_in i l))
unfolding insert_in
insert_in-Ascending i [] bi bl h a = (tt, tt)
insert_in-Ascending i (j ∷ l) bi bl h a =
    insert_in_cases (λ m. Ascending (table m)) i j l
      (λ e. let lt = item_lt i j bi bl.0.0 e in ((lt, Above-mono _ _ (table l) lt a.0), a))
      λ ge.
        let (ne, rest) = find_none_step i.bloom j l h in
        (
          Above-insert_in _ i l (item_gt i j bi bl.0.0 (not_lt_eq _ ge ne)) a.0,
          insert_in-Ascending i l bi bl.1 rest a.1,
        )

pub insert_in-AreItems :
    (i : TreeItem) (l : List TreeItem) → IsItem i → AreItems l → AreItems (insert_in i l)
unfolding insert_in
insert_in-AreItems i [] bi bl = (bi, tt)
insert_in-AreItems i (j ∷ l) bi bl =
    insert_in_cases AreItems i j l (λ _. (bi, bl)) λ _. (bl.0, insert_in-AreItems i l bi bl.1)

pour_item_occur : (i : TreeItem) → i.occur < 2 ^ 64 → (pour_item i).occur < 2 ^ 64
unfolding pour_item
pour_item_occur i h = ground arith

-- What an item pours is an item that a profile can store, of a word with letters.
pub pour_item-IsStorable : (i : TreeItem) → IsItem i → IsStorable (pour_item i)
pour_item-IsStorable i ((w, t, f), h) =
    let e = pour_item-word i ∙ reconstruct_lem i.bloom (w, t, f) in
    (subst NoNull (sym e) t.no_null, pour_item_occur i h)

pub pour_item-worded : (i : TreeItem) → IsItem i → (pour_item i).word ≢ []
pour_item-worded i ((w, t, f), h) e =
    t.nonempty (sym (pour_item-word i ∙ reconstruct_lem i.bloom (w, t, f)) ∙ e)
