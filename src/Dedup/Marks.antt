-- ===== src/Dedup/Marks.antt =====
-- Marking an item of the tree as repeated.
use Prim.Native.Nat.{Ordering}
use wdedup.Prelude.{
  ℕ, ◌≡◌, ◌≢◌, refl, sym, ap, ◌∙◌, subst, true, List, [], ◌∷◌, some, arith, inl, inr,
}
use wdedup.Word.{Word}
use wdedup.Profile.{single_item}
use wdedup.Profile.Status.{Status, ◌⊕◌, status, says, ⊕_assoc, ⊕_comm}
use wdedup.Profile.Ascending.{Above, Ascending}
use wdedup.Bloom.{Bloom, reconstruct, difference}
use wdedup.Bloom.Order.{word_cmp_eq}
use wdedup.Rbtree.{TreeItem, find_in, mark_in}
use wdedup.Dedup.{pour_item}
use wdedup.Dedup.Items.{IsBloom, AreItems, difference_lem, table, pour_item-word, Ordering-cases}

mark_in_cases {ℓ} :
    (P : List TreeItem → Type ℓ) (b : Bloom) (j : TreeItem) (l : List TreeItem)
    → (difference b j.bloom ≡ Ordering.eq → P (record j { occur = 0 } ∷ l))
    → (difference b j.bloom ≢ Ordering.eq → P (j ∷ mark_in b l))
    → P (mark_in b (j ∷ l))
unfolding mark_in
mark_in_cases P b j l eq ne = elim (Ordering-cases (difference b j.bloom)) [
  | inl e ↦ rw (e, mark_in) (ne (λ f. cc))
  | inr (inl e) ↦ rw (e, mark_in) (eq e)
  | inr (inr e) ↦ rw (e, mark_in) (ne (λ f. cc))
]

marked_word : (j : TreeItem) → (pour_item (record j { occur = 0 })).word ≡ (pour_item j).word
unfolding pour_item
marked_word j = ground arith

Above-mark_in :
    (v : Word) (b : Bloom) (l : List TreeItem) → Above v (table l) → Above v (table (mark_in b l))
unfolding mark_in
Above-mark_in v b [] a = tt
Above-mark_in v b (j ∷ l) a =
    mark_in_cases (λ m. Above v (table m)) b j l (λ _. (rw (marked_word j) a.0, a.1))
      λ _. (a.0, Above-mark_in v b l a.1)

pub mark_in-Ascending :
    (b : Bloom) (l : List TreeItem) → Ascending (table l) → Ascending (table (mark_in b l))
unfolding mark_in
mark_in-Ascending b [] a = tt
mark_in-Ascending b (j ∷ l) a =
    mark_in_cases (λ m. Ascending (table m)) b j l
      (λ _. (subst (λ w. Above w (table l)) (sym (marked_word j)) a.0, a.1))
      λ _. (Above-mark_in _ b l a.0, mark_in-Ascending b l a.1)

pub mark_in-AreItems : (b : Bloom) (l : List TreeItem) → AreItems l → AreItems (mark_in b l)
unfolding mark_in
mark_in-AreItems b [] bl = tt
mark_in-AreItems b (j ∷ l) bl =
    mark_in_cases AreItems b j l (λ _. ((bl.0.0, omega arith), bl.1))
      λ _. (bl.0, mark_in-AreItems b l bl.1)

-- Marking the item of a word adds one more occurrence to what is known of the word.
says_twice :
    (w u : Word) (j : TreeItem) (off : ℕ)
    → (pour_item j).word ≡ u
    → says w (pour_item (record j { occur = 0 }))
      ≡ says w (pour_item j) ⊕ says w (single_item u off)
says_twice w u j off e = ground (arith, marked_word j, marked j, e)
  where
    marked : (j : TreeItem) → (pour_item (record j { occur = 0 })).repeated ≡ true
    marked j = unfold pour_item in refl

says_marked :
    (w u : Word) (j : TreeItem) (off : ℕ) (s : Status)
    → (pour_item j).word ≡ u
    → says w (pour_item (record j { occur = 0 })) ⊕ s
      ≡ says w (pour_item j) ⊕ s ⊕ says w (single_item u off)
says_marked w u j off s e =
    let x = says w (pour_item j) in
    let y = says w (single_item u off) in
    ap (λ t. t ⊕ s) (says_twice w u j off e)
    ∙ ⊕_assoc x y s
    ∙ ap (◌⊕◌ x) (⊕_comm y s)
    ∙ sym (⊕_assoc x s y)

find_some_step :
    (b : Bloom) (i j : TreeItem) (l : List TreeItem)
    → find_in b (j ∷ l) ≡ some i
    → difference b j.bloom ≢ Ordering.eq
    → find_in b l ≡ some i
unfolding find_in
find_some_step b i j l h ne = ground arith

pub status-mark_in :
    (w : Word) (b : Bloom) (off : ℕ) (l : List TreeItem) (i : TreeItem)
    → IsBloom b
    → AreItems l
    → find_in b l ≡ some i
    → status w (table (mark_in b l)) ≡ status w (table l) ⊕ says w (single_item (reconstruct b) off)
unfolding status mark_in
status-mark_in w b off [] i bb bl h = absurd (unfold find_in in cc)
status-mark_in w b off (j ∷ l) i bb bl h =
    let more = says w (single_item (reconstruct b) off) in
    mark_in_cases (λ m. status w (table m) ≡ status w (table (j ∷ l)) ⊕ more) b j l
      (λ e.
        says_marked w (reconstruct b) j off (status w (table l))
          (pour_item-word j ∙ sym (word_cmp_eq _ _ (sym (difference_lem b j.bloom bb bl.0.0) ∙ e))))
      λ ne.
        ap (◌⊕◌ (says w (pour_item j)))
          (status-mark_in w b off l i bb bl.1 (find_some_step b i j l h ne))
        ∙ sym (⊕_assoc (says w (pour_item j)) (status w (table l)) more)
