-- ===== src/Reader/Text.antt =====
-- `readString` as the source of the words of a text.
use wdedup.Prelude.{
  ℕ, suc, ◌+◌, ◌-◌, ◌≤◌, ◌<◌, ◌≡◌, ◌≢◌, refl, sym, ap, ap₂, subst, ◌∙◌, List, [], ◌∷◌, ◌++◌,
  if◌then◌else◌, length, take, drop, arith, ◌⊎◌, inl, inr, Option, none, some, length-drop,
  length-append, length-set, append_assoc, ℕ_discrete,
}
use wdedup.Errors.{Result, ok, Error, ◌>>=◌}
use wdedup.Word.{Word}
use wdedup.File.{SequentialFile, bufferptr}
use wdedup.File.Stream.{bytes_of, Reads, is_end}
use wdedup.File.Text.{buffered, bufferptr_open, bufferskip-Reads, not_empty, is_empty}
use wdedup.Reader.{
  is_whitespace, find_byte, terminate, Reader, eliminate, gather, word_at, skip_word, word_or_end,
  read_word,
}
use wdedup.Reader.Spaces.{skip_spaces, find_byte-Found, stream-buffered, eliminate-Reads}
use wdedup.Reader.Words.{split_word, split-found, take_exact, drop_next}
use wdedup.Reader.Terminate.{terminated, terminate-Reads, cons_ne}
use wdedup.Reader.Gather.{gather-Reads}

-- The reader stands at a position before the bytes `s`: those that are left of its file behind the
-- `prevskip` bytes of the buffer that it has still to skip.
pub record InText (r : Reader) (pos : ℕ) (s : List ℕ) : Type 0 where
  pub origin : ℕ
  pub stream : List ℕ
  pub reads : Reads r.file origin stream
  pub within : r.prevskip ≤ length r.file.readbuf - r.file.readoff
  pub place : origin + r.prevskip ≡ pos
  pub left_over : drop r.prevskip (drop r.file.readoff r.file.readbuf) ++ bytes_of r.file.reads ≡ s
  pub open_or_done : (r.prevskip ≡ 0) ⊎ (stream ≢ [])

pub length-skip_spaces : (pos : ℕ) (s : List ℕ) → length (skip_spaces pos s).1 ≤ length s
unfolding skip_spaces
length-skip_spaces pos [] = omega arith
length-skip_spaces pos (b ∷ s) = ground (arith, length-skip_spaces (pos + 1) s)

module _ (name : Error) where
  -- The bytes of the last word are skipped at last.
  skip_word-Reads :
      (r : Reader) (pos : ℕ) (s : List ℕ)
      → InText r pos s
      → (f : SequentialFile) × (skip_word name r ≡ ok f) × Reads f pos s
  unfolding skip_word
  skip_word-Reads r pos s t = elim (ℕ_discrete r.prevskip 0) [
    | yes z ↦ (
      r.file,
      ground (arith, z),
      subst (λ (x : ℕ × List ℕ). Reads r.file x.0 x.1) {x = (t.origin, t.stream)} {y = (pos, s)}
          (ap₂ (λ (u : ℕ) (v : List ℕ). (u, v)) (omega (arith, t.place, z))
            (sym t.reads.at.left_over
              ∙ ap (λ n. drop n (drop r.file.readoff r.file.readbuf) ++ bytes_of r.file.reads)
                  (sym z)
              ∙ t.left_over))
          t.reads,
    )
    | no nz ↦
        let ne : t.stream ≢ [] = elim t.open_or_done [ inl z ↦ absurd (nz z) | inr n ↦ n ] in
        let (f, skips, reads) =
          bufferskip-Reads name r.file t.origin t.stream t.reads r.prevskip ne t.within in
        (
          f,
          ground (arith, nz, skips),
          subst (λ (x : ℕ × List ℕ). Reads f x.0 x.1)
              (ap₂ (λ (u : ℕ) (v : List ℕ). (u, v)) t.place t.left_over) reads,
        )
  ]

  word_gathered :
      (fuel : ℕ) (l : List ℕ) (f f' : SequentialFile) (word : Word)
      → find_byte is_whitespace l ≡ none
      → gather name fuel [] l f ≡ ok (word, f')
      → word_at name fuel l (find_byte is_whitespace l) f
        ≡ ok (word, record { file = f'; prevskip = 0 })
  unfolding word_at
  word_gathered fuel l f f' word i e =
      ap (λ j. word_at name fuel l j f) i
      ∙ ap (λ m. m >>= λ (x : Word × SequentialFile). ok (x.0, record { file = x.1; prevskip = 0 }))
          e

  word_found :
      (fuel : ℕ) (w l rest : List ℕ) (f : SequentialFile)
      → l ≡ w ++ rest
      → word_at name fuel l (some (length w)) f
        ≡ ok (w, record { file = terminate (length w) f; prevskip = length w + 1 })
  unfolding word_at
  word_found fuel w l rest f e =
      ap (λ u. ok (u, record { file = terminate (length w) f; prevskip = length w + 1 }))
        (ap (take (length w)) e ∙ take_exact w rest)

  terminated-InText :
      (f : SequentialFile) (pos : ℕ) (s : List ℕ) (r : Reads f pos s) (w : List ℕ) (b : ℕ)
      (rest : List ℕ)
      → buffered name f pos s r ≡ w ++ b ∷ rest
      → InText
          (record { file = terminate (length w) f; prevskip = length w + 1 })
          (pos + (length w + 1))
          (rest ++ bytes_of f.reads)
  unfolding terminate
  terminated-InText f pos s r w b rest e =
      let size : length (drop f.readoff f.readbuf) ≡ length w + suc (length rest) =
        ap length e ∙ length-append w (b ∷ rest) in
      record {
        origin = pos;
        stream = (w ++ 0 ∷ rest) ++ bytes_of f.reads;
        reads = terminate-Reads name f pos s r w b rest e;
        within = omega (
          arith,
          size,
          length-drop f.readoff f.readbuf,
          length-set f.readbuf (f.readoff + length w) 0,
        );
        place = refl;
        left_over =
            ap (λ l. l ++ bytes_of f.reads)
              (ap (drop (length w + 1)) (terminated name f pos s r w b rest e)
                ∙ drop_next w 0 rest);
        open_or_done = inr (λ h.
            cons_ne w 0 (rest ++ bytes_of f.reads)
              (sym (append_assoc w (0 ∷ rest) (bytes_of f.reads)) ∙ h));
      }

  -- A word that starts in the buffer of the file, which stands at its start.
  word_at-InText :
      (fuel : ℕ) (f : SequentialFile) (pos : ℕ) (s : List ℕ) (r : Reads f pos s)
      → length s < fuel
      → s ≢ []
      → (r' : Reader) × (word_at name fuel
            (buffered name f pos s r)
            (find_byte is_whitespace (buffered name f pos s r))
            f
          ≡ ok ((split_word pos s).0, r'))
        × InText r' (split_word pos s).1 (split_word pos s).2
  word_at-InText fuel f pos s r h n =
      let l = buffered name f pos s r in
      elim (find_byte-Found is_whitespace l) [
        | inl (a, i) ↦
            let (f', runs, reads) = gather-Reads name fuel [] f pos s r h n a in
            (
              record { file = f'; prevskip = 0 },
              word_gathered fuel l f f' (split_word pos s).0 i runs,
              record {
                origin = (split_word pos s).1;
                stream = (split_word pos s).2;
                reads = reads;
                within = omega arith;
                place = omega arith;
                left_over = reads.at.left_over;
                open_or_done = inl refl;
              },
            )
        | inr (w, b, rest, a, y, e, i) ↦
            let t = rest ++ bytes_of f.reads in
            let found : split_word pos s ≡ (w, pos + (length w + 1), t) =
              ap (split_word pos) (
                stream-buffered name f pos s r
                ∙ ap (λ u. u ++ bytes_of f.reads) e
                ∙ append_assoc w (b ∷ rest) (bytes_of f.reads))
              ∙ split-found w b t pos a y in
            subst
              (λ (x : Word × ℕ × List ℕ).
                (r' : Reader) × (word_at name fuel l (find_byte is_whitespace l) f ≡ ok (x.0, r'))
                × InText r' x.1 x.2)
              (sym found)
              (
                record { file = terminate (length w) f; prevskip = length w + 1 },
                ap (λ j. word_at name fuel l j f) i ∙ word_found fuel w l (b ∷ rest) f e,
                terminated-InText f pos s r w b rest e,
              )
      ]

  -- What `readString` gives, for the text that is left: nothing if there is only whitespace; or else the
  -- word behind the whitespace with its offset, and the reader stands behind that word.
  abbrev pub ReadsWord : ℕ → List ℕ → Result (Option (Word × ℕ) × Reader) → Type 0
  ReadsWord pos s m =
      ((s ≡ []) × (r : Reader) × (m ≡ ok (none, r)))
      ⊎ ((s ≢ [])
          × (r : Reader) × (m ≡ ok (some ((split_word pos s).0, pos), r))
          × InText r (split_word pos s).1 (split_word pos s).2)

  word_or_end-ReadsWord :
      (fuel : ℕ) (r0 : Reader) (f : SequentialFile) (pos : ℕ) (s : List ℕ)
      → length s < fuel
      → Reads f pos s
      → ReadsWord pos s (word_or_end name fuel r0 f)
  unfolding word_or_end
  word_or_end-ReadsWord fuel r0 f pos s h r = elim (is_empty s) [
    | inl e ↦ inl (
      e,
      record r0 { file = f },
      ap (λ x. if x then ok (none, record r0 { file = f }) else (bufferptr name f >>= found))
          (r.ended ∙ ap is_end e),
    )
    | inr n ↦
        let (r', runs, there_after) = word_at-InText fuel f pos s r h n in
        inr (
          n,
          r',
          ap (λ x. if x then ok (none, record r0 { file = f }) else (bufferptr name f >>= found))
                (r.ended ∙ not_empty s n)
              ∙ ap (λ m. m >>= found) (bufferptr_open name f pos s r n)
              ∙ ap (λ m. m >>= λ (x : Word × Reader). ok (some (x.0, f.tell), x.1)) runs
              ∙ ap (λ p. ok (some ((split_word pos s).0, p), r')) r.told,
          there_after,
        )
  ]
    where
      found : List ℕ → Result (Option (Word × ℕ) × Reader)
      found bufptr =
          word_at name fuel bufptr (find_byte is_whitespace bufptr) f >>= λ (x : Word × Reader).
          ok (some (x.0, f.tell), x.1)

  -- `readString` of a reader that stands at a position before some text, in a file whose reads all
  -- succeed, with more fuel than the text has bytes: if there is only whitespace left, it gives
  -- nothing; or else the word behind the whitespace, up to the next whitespace or the end,
  -- with the offset of its first byte, and it stands behind that word and the byte that ends it.
  pub read_word-ReadsWord :
      (fuel : ℕ) (r : Reader) (pos : ℕ) (s : List ℕ)
      → length s < fuel
      → InText r pos s
      → ReadsWord (skip_spaces pos s).0 (skip_spaces pos s).1 (read_word name fuel r)
  unfolding read_word
  read_word-ReadsWord fuel r pos s h t =
      let (f0, skips, reads0) = skip_word-Reads r pos s t in
      let (f, clears, reads) = eliminate-Reads name fuel f0 pos s h reads0 in
      subst (ReadsWord (skip_spaces pos s).0 (skip_spaces pos s).1)
        (sym (
          ap (λ m. m >>= λ g. eliminate name fuel g >>= λ k. word_or_end name fuel r k) skips
          ∙ ap (λ m. m >>= λ k. word_or_end name fuel r k) clears))
        (word_or_end-ReadsWord fuel r f _ _ (omega (arith, length-skip_spaces pos s)) reads)
