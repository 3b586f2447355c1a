-- ===== src/Segments/Step.antt =====
-- A round of the outer loop of `wprof` takes words: the one that waits first, or else the first of the text.
use wdedup.Prelude.{
  ℕ, suc, ◌-◌, ◌<◌, ◌≤◌, ◌≡◌, ◌≢◌, refl, ap, ◌∙◌, subst, Bool, true, false, List, [], ◌∷◌, ◌++◌,
  if◌then◌else◌, ◌⊎◌, inl, inr, Option, none, some, arith, All, length,
}
use wdedup.Errors.{Result, ok, fault, Error, ◌>>=◌}
use wdedup.Word.{Word}
use wdedup.Profile.{single_item}
use wdedup.Profile.Status.{◌⊕◌, status, says}
use wdedup.Bloom.{decompose}
use wdedup.Memory.{alloc, new_memory}
use wdedup.Rbtree.{Rbtree}
use wdedup.Dedup.{TreeDedup, new_dedup, insert_word, pour, item_size}
use wdedup.Dedup.Refine.{IsOccurrence, IsSorted, insert_word-Inserts}
use wdedup.Dedup.Pour.{occurrences, new_dedup-IsSorted, status-new_dedup}
use wdedup.Reader.{Reader, read_word}
use wdedup.Reader.Text.{InText, read_word-ReadsWord}
use wdedup.Profiling.{Filled, fill_segment}
use wdedup.Profiling.Fill.{
  WordsOf, no_word, next_word, waiting, left_length, read_next, Ends, far_enough, not_far,
  fill_read, inserted, at_end,
}
use wdedup.Profiling.Segment.{fill_segment-Fills}
use wdedup.Segments.{start_segment}

-- The word can be inserted into an empty working memory.
abbrev pub FitsAlone : ℕ → Word × ℕ → Type 0
FitsAlone vmsize (w, off) = alloc item_size (decompose w).1 (new_memory vmsize) ≢ none

module _ (rb : Rbtree) (name : Error) (vmsize sync_distance fuel : ℕ) where
  abbrev fresh : TreeDedup rb
  fresh = new_dedup rb vmsize

  -- What a round fills its segment with.
  abbrev pub filling : Option (Word × ℕ) → Bool → ℕ → Reader → Result (Filled rb)
  filling input_entry iseof offset reader =
      start_segment rb name vmsize sync_distance fuel input_entry >>= λ d.
      if iseof then fault else fill_segment rb name sync_distance fuel fuel offset d reader

  -- What a round promises: the words are those of the segment, the one that waits and the rest; the segment
  -- has a word unless the file has ended; and it says of every word what its words say.
  abbrev pub Step : ℕ → List (Word × ℕ) → Result (Filled rb) → Type 0
  Step size l m =
      (x : Filled rb) × (pos : ℕ) × (s : List ℕ) × (done : List (Word × ℕ)) × (rest : List
        (Word × ℕ))
      × (m ≡ ok x)
      × IsSorted rb x.dedup
      × (l ≡ done ++ (waiting x.input_entry ++ rest))
      × Ends rb name sync_distance fuel x pos s rest
      × (length s ≤ size)
      × ((x.iseof ≡ true) ⊎ (done ≢ []))
      × ((w : Word) → status w (pour rb x.dedup) ≡ status w (occurrences done))

  first_insert :
      (word : Word) (off : ℕ)
      → IsOccurrence (word, off)
      → FitsAlone vmsize (word, off)
      → (d : TreeDedup rb) × (insert_word rb word off fresh ≡ (true, d))
        × IsSorted rb d
        × ((w : Word) → status w (pour rb d) ≡ says w (single_item word off))
  unfolding new_dedup
  first_insert word off o fits =
      elim (insert_word-Inserts rb word off fresh o.0 o.1 (new_dedup-IsSorted rb vmsize)) [
        | inl (refused, full, new) ↦ absurd (fits full)
        | inr (d, e, s, h) ↦ (
          d,
          e,
          s,
          λ w. h w ∙ ap (λ y. y ⊕ says w (single_item word off)) (status-new_dedup rb w vmsize),
        )
      ]

  -- Behind the insertion of the first word the loop goes on.
  after_first :
      (word : Word) (off rounds offset : ℕ) (d : TreeDedup rb) (r : Reader) (pos : ℕ) (s : List ℕ)
      (l : List (Word × ℕ)) (m : Result (Filled rb))
      → length l < rounds
      → length s < fuel
      → All IsOccurrence l
      → WordsOf pos s l
      → InText r pos s
      → IsSorted rb d
      → ((w : Word) → status w (pour rb d) ≡ says w (single_item word off))
      → m ≡ fill_segment rb name sync_distance fuel rounds offset d r
      → Step (length s) ((word, off) ∷ l) m
  unfolding status
  after_first word off rounds offset d r pos s l m h k a w t sorted says_first runs =
      let (x, pos', s', done, rest, fills, sorted', parts, ends, few, all) =
        fill_segment-Fills rb name sync_distance fuel rounds offset d r pos s l h k a w t sorted in
      (
        x,
        pos',
        s',
        (word, off) ∷ done,
        rest,
        runs ∙ fills,
        sorted',
        ap (◌∷◌ (word, off)) parts,
        ends,
        few,
        inr (λ z. cc),
        λ v. all v ∙ ap (λ y. y ⊕ status v (occurrences done)) (says_first v),
      )

  -- A round that a word waits for.
  pub waited-Step :
      (word : Word) (off offset : ℕ) (r : Reader) (pos : ℕ) (s : List ℕ) (l : List (Word × ℕ))
      → length l < fuel
      → length s < fuel
      → All IsOccurrence ((word, off) ∷ l)
      → FitsAlone vmsize (word, off)
      → WordsOf pos s l
      → InText r pos s
      → Step (length s) ((word, off) ∷ l) (filling (some (word, off)) false offset r)
  unfolding start_segment
  waited-Step word off offset r pos s l h k (o, a) fits w t =
      let (d, e, sorted, says_first) = first_insert word off o fits in
      after_first word off fuel offset d r pos s l _ h k a w t sorted says_first
        (rw (e, start_segment) refl)

  fill_end :
      (rounds offset : ℕ) (r : Reader) (pos : ℕ) (s : List ℕ)
      → length s < fuel
      → WordsOf pos s []
      → InText r pos s
      → far_enough rb name sync_distance fuel offset r ≡ false
      → Step (length s) [] (fill_segment rb name sync_distance fuel (suc rounds) offset fresh r)
  unfolding status
  fill_end rounds offset r pos s k (no_word e) t n =
      elim (read_word-ReadsWord name fuel r pos s k t) [
        | inl (z, r', reads) ↦ (
          record {
            dedup = fresh;
            reader = r';
            input_entry = none;
            iseof = true;
            prevoff = r'.file.tell;
          },
          pos,
          s,
          [],
          [],
          fill_read rb name sync_distance fuel rounds offset fresh r r' none n reads
              ∙ at_end rb name sync_distance fuel r.file.tell fresh r'
                  (λ d'. fill_segment rb name sync_distance fuel rounds offset d' r'),
          new_dedup-IsSorted rb vmsize,
          refl,
          inl (refl, refl, refl),
          omega arith,
          inl refl,
          λ w. status-new_dedup rb w vmsize,
        )
        | inr (ne, r', reads, text) ↦ absurd (ne e)
      ]

  read_first :
      (rounds offset : ℕ) (r : Reader) (pos : ℕ) (s : List ℕ) (l : List (Word × ℕ))
      → length l < suc rounds
      → length s < fuel
      → All IsOccurrence l
      → All (FitsAlone vmsize) l
      → offset ≡ r.file.tell
      → WordsOf pos s l
      → InText r pos s
      → Step (length s) l (fill_segment rb name sync_distance fuel (suc rounds) offset fresh r)
  read_first rounds offset r pos s [] h k a f e w t =
      fill_end rounds offset r pos s k w t (not_far rb name sync_distance fuel offset r e)
  read_first rounds offset r pos s ((word, off) ∷ l) h k (o, a) (fits, f) e
        (next_word skips ne split w) t =
      let (r', reads, text) =
        read_next name pos s (read_word name fuel r) skips ne split
          (read_word-ReadsWord name fuel r pos s k t) in
      let (d, done, sorted, says_first) = first_insert word off o fits in
      let (x, pos', s', words_done, rest, runs, sorted', parts, ends, few, more, says_all) =
        after_first word off rounds offset d r' _ _ l
          (fill_segment rb name sync_distance fuel (suc rounds) offset fresh r) (omega arith)
          (omega (arith, left_length pos s skips split)) a w text sorted says_first
          (fill_read rb name sync_distance fuel rounds offset fresh r r' (some (word, off))
              (not_far rb name sync_distance fuel offset r e) reads
            ∙ inserted rb name sync_distance fuel word off r.file.tell fresh d r'
                (λ d'. fill_segment rb name sync_distance fuel rounds offset d' r') done) in
      (
        x,
        pos',
        s',
        words_done,
        rest,
        runs,
        sorted',
        parts,
        ends,
        omega (arith, few, left_length pos s skips split),
        more,
        says_all,
      )

  -- A round that no word waits for, from the place where the segment starts.
  pub read-Step :
      (offset : ℕ) (r : Reader) (pos : ℕ) (s : List ℕ) (l : List (Word × ℕ))
      → length l < fuel
      → length s < fuel
      → All IsOccurrence l
      → All (FitsAlone vmsize) l
      → offset ≡ r.file.tell
      → WordsOf pos s l
      → InText r pos s
      → Step (length s) l (filling none false offset r)
  unfolding start_segment
  read-Step offset r pos s l h k a f e w t =
      subst (λ n. Step (length s) l (fill_segment rb name sync_distance fuel n offset fresh r))
        {x = suc (fuel - 1)} (omega arith)
        (read_first (fuel - 1) offset r pos s l (omega arith) k a f e w t)
