-- ===== src/Dedup/Refine.antt =====
-- What the deduplication makes of the words that are inserted: a sorted table that says of each word
-- what its occurrences say.
use wdedup.Prelude.{
  ℕ, ◌+◌, ◌<◌, ◌^◌, ◌%◌, ◌≡◌, ◌≢◌, refl, sym, ap, ap₂, ◌∙◌, subst, true, false, [], ◌∷◌, none, some,
  arith, ◌⊎◌, inl, inr, Option-cases,
}
use wdedup.Word.{Word}
use wdedup.Profile.{single_item}
use wdedup.Profile.Status.{◌⊕◌, status, says, ⊕_comm}
use wdedup.Profile.Ascending.{Ascending}
use wdedup.Bloom.{decompose}
use wdedup.Bloom.Reconstruct.{reconstruct-decompose}
use wdedup.Memory.{Memory, alloc}
use wdedup.Rbtree.{Rbtree, TreeItem, find_in, insert_in}
use wdedup.Dedup.{pour_item, TreeDedup, insert_new, insert_word, pour, item_size}
use wdedup.Dedup.Items.{
  IsText, IsBloom, AreItems, table, reconstruct_lem, pour_items-table, status-insert_in,
  insert_in-Ascending, insert_in-AreItems,
}
use wdedup.Dedup.Marks.{mark_in-Ascending, mark_in-AreItems, status-mark_in}

-- A word of the text, at an offset that has a successor.
abbrev pub IsOccurrence : Word × ℕ → Type 0
IsOccurrence (w, off) = IsText w × (off + 1 < 2 ^ 64)

-- What a fresh item says.
new_says :
    (w word : Word) (off : ℕ)
    → IsText word
    → off + 1 < 2 ^ 64
    → says w (pour_item (record { bloom = (decompose word).0; occur = (off + 1) % 2 ^ 64 }))
      ≡ says w (single_item word off)
unfolding pour_item
new_says w word off t h =
    let e = reconstruct-decompose word t.no_null t.bytes in
    let m : (off + 1) % 2 ^ 64 ≡ off + 1 = omega arith in ground (arith, e, m)

module _ (rb : Rbtree) where
  open rb use {
    Tree, init, find, mark, insert, items, items-init, find_lem, items-mark, items-insert,
  }

  -- The items are those of words, and in order.
  pub record IsSorted (d : TreeDedup rb) : Type 0 where
    pub are_items : AreItems (items d.root)
    pub ascending : Ascending (table (items d.root))

  pub pour-table : (d : TreeDedup rb) → pour rb d ≡ table (items d.root)
  unfolding pour
  pour-table d = pour_items-table (items d.root) []

  -- The insertion of a word, by what the search finds.
  insert_found :
      (word : Word) (off : ℕ) (d : TreeDedup rb) (i : TreeItem)
      → word ≢ []
      → find (decompose word).0 d.root ≡ some i
      → insert_word rb word off d ≡ (true, record d { root = mark (decompose word).0 d.root })
  unfolding insert_word
  insert_found [] off d i n h = absurd (n refl)
  insert_found (b ∷ word) off d i n h = rw (h, insert_word) refl

  insert_missing :
      (word : Word) (off : ℕ) (d : TreeDedup rb)
      → word ≢ []
      → find (decompose word).0 d.root ≡ none
      → insert_word rb word off d ≡ insert_new rb (decompose word).0 (decompose word).1 off d
  unfolding insert_word
  insert_missing [] off d n h = absurd (n refl)
  insert_missing (b ∷ word) off d n h = rw (h, insert_word) refl

  -- The insertion, by its two outcomes: the word is new and the working memory is full, and nothing
  -- changes; or the word's occurrence is added to what the table says.
  abbrev pub Inserts : Word → ℕ → TreeDedup rb → Type 0
  Inserts word off d =
      ((insert_word rb word off d ≡ (false, d))
        × (alloc item_size (decompose word).1 d.wmman ≡ none)
        × (find_in (decompose word).0 (items d.root) ≡ none))
      ⊎ ((d' : TreeDedup rb) × (insert_word rb word off d ≡ (true, d'))
          × IsSorted d'
          × ((w : Word)
              → status w (pour rb d') ≡ status w (pour rb d) ⊕ says w (single_item word off)))

  bloom_of : (word : Word) → IsText word → IsBloom (decompose word).0
  bloom_of word t = (word, t, refl)

  marked : Word → TreeDedup rb → TreeDedup rb
  marked word d = record d { root = mark (decompose word).0 d.root }

  marked-IsSorted : (word : Word) (d : TreeDedup rb) → IsSorted d → IsSorted (marked word d)
  unfolding marked
  marked-IsSorted word d s =
      let b = (decompose word).0 in
      let e = sym (items-mark b d.root) in
      record {
        are_items = subst AreItems e (mark_in-AreItems b (items d.root) s.are_items);
        ascending =
            subst (λ l. Ascending (table l)) e (mark_in-Ascending b (items d.root) s.ascending);
      }

  status-marked :
      (w word : Word) (off : ℕ) (d : TreeDedup rb) (i : TreeItem)
      → IsText word
      → IsSorted d
      → find (decompose word).0 d.root ≡ some i
      → status w (pour rb (marked word d)) ≡ status w (pour rb d) ⊕ says w (single_item word off)
  unfolding marked bloom_of
  status-marked w word off d i t s h =
      let b = (decompose word).0 in
      let l = items d.root in
      ap (status w) (pour-table (marked word d) ∙ ap table (items-mark b d.root))
      ∙ status-mark_in w b off l i (bloom_of word t) s.are_items (sym (find_lem b d.root) ∙ h)
      ∙ ap₂ (λ x v. status w x ⊕ says w (single_item v off)) (sym (pour-table d))
          (reconstruct_lem b (bloom_of word t))

  module _ (word : Word) (off : ℕ) (d : TreeDedup rb) (t : IsText word) (h : off + 1 < 2 ^ 64)
      (s : IsSorted d) (e : find_in (decompose word).0 (items d.root) ≡ none) (m : Memory) where
    fresh_item : TreeItem
    fresh_item = record { bloom = (decompose word).0; occur = (off + 1) % 2 ^ 64 }

    grown : TreeDedup rb
    grown = record { wmman = m; root = insert fresh_item d.root }

    items-grown : items grown.root ≡ insert_in fresh_item (items d.root)
    unfolding grown fresh_item
    items-grown = items-insert fresh_item d.root e

    grown-IsSorted : IsSorted grown
    unfolding fresh_item
    grown-IsSorted = record {
      are_items =
          subst AreItems (sym items-grown) (
            insert_in-AreItems fresh_item (items d.root) (bloom_of word t, omega arith)
              s.are_items);
      ascending =
          subst (λ l. Ascending (table l)) (sym items-grown)
            (insert_in-Ascending fresh_item (items d.root) (bloom_of word t) s.are_items e
              s.ascending);
    }

    status-grown :
        (w : Word) → status w (pour rb grown) ≡ status w (pour rb d) ⊕ says w (single_item word off)
    unfolding fresh_item
    status-grown w =
        let l = items d.root in
        ap (status w) (pour-table grown ∙ ap table items-grown)
        ∙ status-insert_in w fresh_item l
        ∙ ap₂ (λ x y. x ⊕ status w y) (new_says w word off t h) (sym (pour-table d))
        ∙ ⊕_comm (says w (single_item word off)) (status w (pour rb d))

  -- `insert` of a word of the text at an offset with a successor, into a deduplication that is sorted:
  -- either it is refused and nothing changes, and then the word is not among the items and the
  -- working memory has no room for it; or it succeeds, the result is sorted again, and what
  -- it pours says of every word what the former one said, with one occurrence more of
  -- the inserted word.
  pub insert_word-Inserts :
      (word : Word) (off : ℕ) (d : TreeDedup rb)
      → IsText word
      → off + 1 < 2 ^ 64
      → IsSorted d
      → Inserts word off d
  unfolding marked grown fresh_item
  insert_word-Inserts word off d t h s = elim (Option-cases (find (decompose word).0 d.root)) [
    | inl e ↦
        let none_in = sym (find_lem (decompose word).0 d.root) ∙ e in
        let missing = insert_missing word off d t.nonempty e in
        elim (Option-cases (alloc item_size (decompose word).1 d.wmman)) [
          | inl full ↦
              inl (missing ∙ unfold insert_new in rw (full, insert_new) refl, full, none_in)
          | inr ((m, b), done) ↦ inr (
            grown word off d t h s none_in m,
            missing ∙ unfold insert_new in rw (done, insert_new) refl,
            grown-IsSorted word off d t h s none_in m,
            status-grown word off d t h s none_in m,
          )
        ]
    | inr (i, e) ↦ inr (
      marked word d,
      insert_found word off d i t.nonempty e,
      marked-IsSorted word d s,
      λ w. status-marked w word off d i t s e,
    )
  ]
