-- ===== src/Profiling/Fill.antt =====
-- What the loop over a segment makes of the text.
use wdedup.Prelude.{
  ℕ, ◌^◌, ◌%◌, suc, ◌+◌, ◌-◌, ◌≤◌, ◌≡◌, ◌≢◌, refl, ap, subst, ◌∙◌, Bool, true, false, ◌&&◌, List,
  [], ◌∷◌, ◌++◌, if◌then◌else◌, length, ltb, arith, ◌⊎◌, inl, inr, Option, none, some,
}
use wdedup.Errors.{Result, ok, Error, ◌>>=◌}
use wdedup.Word.{Word}
use wdedup.Profile.Status.{◌⊕◌, status}
use wdedup.Rbtree.{Rbtree}
use wdedup.Dedup.{TreeDedup, insert_word, pour}
use wdedup.Dedup.Refine.{IsSorted}
use wdedup.Dedup.Pour.{occurrences}
use wdedup.Reader.{Reader, read_word}
use wdedup.Reader.Spaces.{skip_spaces}
use wdedup.Reader.Words.{split_word}
use wdedup.Reader.Text.{length-skip_spaces, InText, ReadsWord}
use wdedup.Profiling.{Filled, fill_at, fill_segment}

-- The words of a text from a position on, with their offsets.
pub data WordsOf : ℕ → List ℕ → List (Word × ℕ) → Type 0 where
  no_word : {pos : ℕ} {s : List ℕ} → (skip_spaces pos s).1 ≡ [] → WordsOf pos s []
  next_word :
      {pos : ℕ} {s : List ℕ} {p : ℕ} {t : List ℕ} {word : Word} {q : ℕ} {u : List ℕ}
      {l : List (Word × ℕ)}
      → skip_spaces pos s ≡ (p, t)
      → t ≢ []
      → split_word p t ≡ (word, q, u)
      → WordsOf q u l
      → WordsOf pos s ((word, p) ∷ l)

-- The word that waits for the next segment.
abbrev pub waiting : Option (Word × ℕ) → List (Word × ℕ)
waiting none = []
waiting (some x) = x ∷ []

length-split_word : (pos : ℕ) (s : List ℕ) → length (split_word pos s).2 ≤ length s
unfolding split_word
length-split_word pos [] = omega arith
length-split_word pos (b ∷ s) = ground (arith, length-split_word (pos + 1) s)

-- The length of what is left behind a word.
pub left_length :
    (pos : ℕ) (s : List ℕ) {p : ℕ} {t : List ℕ} {word : Word} {q : ℕ} {u : List ℕ}
    → skip_spaces pos s ≡ (p, t)
    → split_word p t ≡ (word, q, u)
    → length u ≤ length s
left_length pos s {p} {t} e k =
    let a : length t ≤ length s =
      subst (λ (x : ℕ × List ℕ). length x.1 ≤ length s) e (length-skip_spaces pos s) in
    let b = subst (λ (x : Word × ℕ × List ℕ). length x.2 ≤ length t) k (length-split_word p t) in
    omega (arith, a, b)

-- The first clause of the loop's promise for a read, with the word named.
pub read_next :
    (name : Error) (pos : ℕ) (s : List ℕ) {p : ℕ} {t : List ℕ} {word : Word} {q : ℕ} {u : List ℕ}
    (m : Result (Option (Word × ℕ) × Reader))
    → skip_spaces pos s ≡ (p, t)
    → t ≢ []
    → split_word p t ≡ (word, q, u)
    → ReadsWord name (skip_spaces pos s).0 (skip_spaces pos s).1 m
    → (r : Reader) × (m ≡ ok (some (word, p), r)) × InText r q u
read_next name pos s {p} {t} {word} {q} {u} m e n k h =
    elim (subst (λ (x : ℕ × List ℕ). ReadsWord name x.0 x.1 m) e h) [
      | inl (z, r, reads) ↦ absurd (n z)
      | inr (ne, r, reads, text) ↦ (
        r,
        reads ∙ ap (λ (x : Word × ℕ × List ℕ). ok (some (x.0, p), r)) k,
        subst (λ (x : Word × ℕ × List ℕ). InText r x.1 x.2) k text,
      )
    ]

module _ (rb : Rbtree) (name : Error) (sync_distance fuel : ℕ) where
  -- How the loop ends: at the end of the file with nothing left, behind the distance with a reader
  -- that stands before the words that are left, or so with a word that waits before them.
  abbrev pub Ends : Filled rb → ℕ → List ℕ → List (Word × ℕ) → Type 0
  Ends x pos s rest =
      ((x.iseof ≡ true) × (x.input_entry ≡ none) × (rest ≡ []))
      ⊎ (((x.iseof ≡ false)
            × (x.input_entry ≡ none)
            × (x.prevoff ≡ x.reader.file.tell)
            × InText x.reader pos s
            × WordsOf pos s rest)
          ⊎ ((word : Word × ℕ) × (x.iseof ≡ false)
              × (x.input_entry ≡ some word)
              × InText x.reader pos s
              × WordsOf pos s rest))

  -- What the loop promises: the words are those that it has done, the one that waits and the rest, in
  -- this order; the deduplication is sorted, and has the words that were done added to it; and no
  -- more bytes are left than there were.
  abbrev pub Fills : ℕ → List (Word × ℕ) → TreeDedup rb → Result (Filled rb) → Type 0
  Fills size l d m =
      (x : Filled rb) × (pos : ℕ) × (s : List ℕ) × (done : List (Word × ℕ)) × (rest : List
        (Word × ℕ))
      × (m ≡ ok x)
      × IsSorted rb x.dedup
      × (l ≡ done ++ (waiting x.input_entry ++ rest))
      × Ends x pos s rest
      × (length s ≤ size)
      × ((w : Word)
          → status w (pour rb x.dedup) ≡ status w (pour rb d) ⊕ status w (occurrences done))

  -- The round that ends behind the distance.
  pub far_enough : ℕ → Reader → Bool
  far_enough offset r =
      ltb 0 sync_distance && ltb sync_distance ((r.file.tell + 2 ^ 64 - offset) % 2 ^ 64)

  -- A segment is not ended where it starts.
  pub not_far : (offset : ℕ) (r : Reader) → offset ≡ r.file.tell → far_enough offset r ≡ false
  unfolding far_enough
  not_far offset r e =
      ap (λ k. ltb 0 sync_distance && ltb sync_distance k)
        {x = (r.file.tell + 2 ^ 64 - offset) % 2 ^ 64} {y = 0} (omega (arith, e))
      ∙ ground arith

  pub fill_far :
      (rounds offset : ℕ) (d : TreeDedup rb) (r : Reader)
      → far_enough offset r ≡ true
      → fill_segment rb name sync_distance fuel (suc rounds) offset d r
        ≡ ok (record {
          dedup = d;
          reader = r;
          input_entry = none;
          iseof = false;
          prevoff = r.file.tell;
        })
  unfolding fill_segment far_enough
  fill_far rounds offset d r h = rw h refl

  pub fill_read :
      (rounds offset : ℕ) (d : TreeDedup rb) (r r' : Reader) (o : Option (Word × ℕ))
      → far_enough offset r ≡ false
      → read_word name fuel r ≡ ok (o, r')
      → fill_segment rb name sync_distance fuel (suc rounds) offset d r
        ≡ fill_at rb o r.file.tell d r'
            (λ d'. fill_segment rb name sync_distance fuel rounds offset d' r')
  unfolding fill_segment far_enough
  fill_read rounds offset d r r' o h e =
      let at = λ (x : Option (Word × ℕ) × Reader).
        fill_at rb x.0 r.file.tell d x.1
          (λ d'. fill_segment rb name sync_distance fuel rounds offset d' x.1) in
      ap
        (λ x.
          if x
          then ok (record {
            dedup = d;
            reader = r;
            input_entry = none;
            iseof = false;
            prevoff = r.file.tell;
          })
          else (read_word name fuel r >>= at))
        h
      ∙ ap (λ m. m >>= at) e

  pub inserted :
      (word : Word) (off prevoff : ℕ) (d d' : TreeDedup rb) (r : Reader)
      (more : TreeDedup rb → Result (Filled rb))
      → insert_word rb word off d ≡ (true, d')
      → fill_at rb (some (word, off)) prevoff d r more ≡ more d'
  unfolding fill_at
  inserted word off prevoff d d' r more e = rw e refl

  pub not_inserted :
      (word : Word) (off prevoff : ℕ) (d : TreeDedup rb) (r : Reader)
      (more : TreeDedup rb → Result (Filled rb))
      → insert_word rb word off d ≡ (false, d)
      → fill_at rb (some (word, off)) prevoff d r more
        ≡ ok (record {
          dedup = d;
          reader = r;
          input_entry = some (word, off);
          iseof = false;
          prevoff = prevoff;
        })
  unfolding fill_at
  not_inserted word off prevoff d r more e =
      ap
        (λ (x : Bool × TreeDedup rb).
          if x.0
          then more x.1
          else ok (record {
            dedup = x.1;
            reader = r;
            input_entry = some (word, off);
            iseof = false;
            prevoff = prevoff;
          }))
        e

  pub at_end :
      (prevoff : ℕ) (d : TreeDedup rb) (r : Reader) (more : TreeDedup rb → Result (Filled rb))
      → fill_at rb none prevoff d r more
        ≡ ok (record {
          dedup = d;
          reader = r;
          input_entry = none;
          iseof = true;
          prevoff = r.file.tell;
        })
  unfolding fill_at
  at_end prevoff d r more = refl
