-- ===== src/Profiling/Segment.antt =====
-- The words of a segment: none is lost between the text, the table and the word that waits.
use wdedup.Prelude.{
  ℕ, zero, suc, ◌<◌, ◌≡◌, refl, sym, ap, ◌∙◌, true, false, List, [], ◌∷◌, length, arith, inl, inr,
  none, some, All, Bool-cases,
}
use wdedup.Errors.{Error}
use wdedup.Word.{Word}
use wdedup.Profile.{single_item}
use wdedup.Profile.Status.{◌⊕◌, status, says, ⊕_assoc, ⊕_absent}
use wdedup.Rbtree.{Rbtree}
use wdedup.Dedup.{TreeDedup, pour}
use wdedup.Dedup.Refine.{IsOccurrence, IsSorted, insert_word-Inserts}
use wdedup.Dedup.Pour.{occurrences}
use wdedup.Reader.{Reader, read_word}
use wdedup.Reader.Text.{InText, read_word-ReadsWord}
use wdedup.Profiling.{fill_segment}
use wdedup.Profiling.Fill.{
  WordsOf, no_word, next_word, left_length, read_next, Fills, far_enough, fill_far, fill_read,
  inserted, not_inserted, at_end,
}

module _ (rb : Rbtree) (name : Error) (sync_distance fuel : ℕ) where
  abbrev pub Loop : ℕ → List (Word × ℕ) → ℕ → ℕ → TreeDedup rb → Reader → Type 0
  Loop size l rounds offset d r =
      Fills rb name sync_distance fuel size l d
        (fill_segment rb name sync_distance fuel rounds offset d r)

  -- A round that ends behind the distance leaves all words to be read.
  far-Fills :
      (rounds offset : ℕ) (d : TreeDedup rb) (r : Reader) (pos : ℕ) (s : List ℕ)
      (l : List (Word × ℕ))
      → far_enough rb name sync_distance fuel offset r ≡ true
      → WordsOf pos s l
      → InText r pos s
      → IsSorted rb d
      → Loop (length s) l (suc rounds) offset d r
  unfolding status
  far-Fills rounds offset d r pos s l h w t sorted = (
    record { dedup = d; reader = r; input_entry = none; iseof = false; prevoff = r.file.tell },
    pos,
    s,
    [],
    l,
    fill_far rb name sync_distance fuel rounds offset d r h,
    sorted,
    refl,
    inr (inl (refl, refl, refl, t, w)),
    omega arith,
    λ v. sym (⊕_absent (status v (pour rb d))),
  )

  -- The loop over a segment, on a text with known words.
  pub fill_segment-Fills :
      (rounds offset : ℕ) (d : TreeDedup rb) (r : Reader) (pos : ℕ) (s : List ℕ)
      (l : List (Word × ℕ))
      → length l < rounds
      → length s < fuel
      → All IsOccurrence l
      → WordsOf pos s l
      → InText r pos s
      → IsSorted rb d
      → Loop (length s) l rounds offset d r
  unfolding status
  fill_segment-Fills zero offset d r pos s l h k a w t sorted = absurd (omega arith)
  fill_segment-Fills (suc rounds) offset d r pos s [] h k a (no_word e) t sorted =
      elim (Bool-cases (far_enough rb name sync_distance fuel offset r)) [
        | inl y ↦ far-Fills rounds offset d r pos s [] y (no_word e) t sorted
        | inr n ↦ elim (read_word-ReadsWord name fuel r pos s k t) [
          | inl (z, r', reads) ↦ (
            record {
              dedup = d;
              reader = r';
              input_entry = none;
              iseof = true;
              prevoff = r'.file.tell;
            },
            pos,
            s,
            [],
            [],
            fill_read rb name sync_distance fuel rounds offset d r r' none n reads
                ∙ at_end rb name sync_distance fuel r.file.tell d r'
                    (λ d'. fill_segment rb name sync_distance fuel rounds offset d' r'),
            sorted,
            refl,
            inl (refl, refl, refl),
            omega arith,
            λ v. sym (⊕_absent (status v (pour rb d))),
          )
          | inr (ne, r', reads, text) ↦ absurd (ne e)
        ]
      ]
  fill_segment-Fills (suc rounds) offset d r pos s ((word, off) ∷ l) h k (o, a)
        (next_word e ne split w) t sorted =
      elim (Bool-cases (far_enough rb name sync_distance fuel offset r)) [
        | inl y ↦
            far-Fills rounds offset d r pos s ((word, off) ∷ l) y (next_word e ne split w) t sorted
        | inr n ↦
            let (r', reads, text) =
              read_next name pos s (read_word name fuel r) e ne split
                (read_word-ReadsWord name fuel r pos s k t) in
            let round =
              fill_read rb name sync_distance fuel rounds offset d r r' (some (word, off)) n
                reads in
            let more =
              λ (d' : TreeDedup rb). fill_segment rb name sync_distance fuel rounds offset d' r' in
            elim (insert_word-Inserts rb word off d o.0 o.1 sorted) [
              | inl (refused, full, new) ↦ (
                record {
                  dedup = d;
                  reader = r';
                  input_entry = some (word, off);
                  iseof = false;
                  prevoff = r.file.tell;
                },
                _,
                _,
                [],
                l,
                round
                    ∙ not_inserted rb name sync_distance fuel word off r.file.tell d r' more
                        refused,
                sorted,
                refl,
                inr (inr ((word, off), refl, refl, text, w)),
                left_length pos s e split,
                λ v. sym (⊕_absent (status v (pour rb d))),
              )
              | inr (d', done, sorted', says_more) ↦
                  let (x, pos', s', words_done, rest, runs, sorted'', parts, ends, few, all) =
                    fill_segment-Fills rounds offset d' r' _ _ l (omega arith)
                      (omega (arith, left_length pos s e split)) a w text sorted' in
                  (
                    x,
                    pos',
                    s',
                    (word, off) ∷ words_done,
                    rest,
                    round
                        ∙ inserted rb name sync_distance fuel word off r.file.tell d d' r' more done
                        ∙ runs,
                    sorted'',
                    ap (◌∷◌ (word, off)) parts,
                    ends,
                    omega (arith, few, left_length pos s e split),
                    λ v.
                        all v
                        ∙ ap (λ y. y ⊕ status v (occurrences words_done)) (says_more v)
                        ∙ ⊕_assoc (status v (pour rb d)) (says v (single_item word off))
                            (status v (occurrences words_done)),
                  )
            ]
      ]
