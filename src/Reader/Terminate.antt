-- ===== src/Reader/Terminate.antt =====
-- The terminator that `readString` writes into the buffer behind a word.
use wdedup.Prelude.{
  ℕ, suc, ◌+◌, ◌-◌, ◌≤◌, ◌≡◌, ◌≢◌, sym, ap, subst, ◌∙◌, List, [], ◌∷◌, ◌++◌, length, set, drop,
  arith, inl, length-drop, length-append, length-set, append_assoc,
}
use wdedup.Errors.{ok, Error}
use wdedup.File.{SequentialFile, bufferskip}
use wdedup.File.Stream.{bytes_of, Reads}
use wdedup.File.Text.{buffered, bufferskip-Reads, not_empty}
use wdedup.Reader.{terminate}
use wdedup.Reader.Spaces.{stream-buffered, ready_size}
use wdedup.Reader.Words.{drop_next, set_exact, drop-set}

pub cons_ne : (w : List ℕ) (b : ℕ) (l : List ℕ) → w ++ b ∷ l ≢ []
cons_ne [] b l e = cc
cons_ne (c ∷ w) b l e = cc

module _ (name : Error) where
  module _ (f : SequentialFile) (pos : ℕ) (s : List ℕ) (r : Reads f pos s) (w : List ℕ) (b : ℕ)
      (rest : List ℕ) (e : buffered name f pos s r ≡ w ++ b ∷ rest) where
    -- The byte that ends the word is overwritten in the buffer.
    pub terminated : drop f.readoff (set f.readbuf (f.readoff + length w) 0) ≡ w ++ 0 ∷ rest
    terminated =
        drop-set f.readoff (length w) f.readbuf 0
        ∙ ap (λ l. set l (length w) 0) e
        ∙ set_exact w b 0 rest

    pub there : s ≢ []
    there h = cons_ne w b (rest ++ bytes_of f.reads) (
        sym (append_assoc w (b ∷ rest) (bytes_of f.reads))
        ∙ ap (λ l. l ++ bytes_of f.reads) (sym e)
        ∙ sym (stream-buffered name f pos s r)
        ∙ h)

    pub terminate-Reads : Reads (terminate (length w) f) pos ((w ++ 0 ∷ rest) ++ bytes_of f.reads)
    unfolding terminate
    terminate-Reads = record {
      at = record {
        within = omega (arith, r.at.within, length-set f.readbuf (f.readoff + length w) 0);
        place = r.at.place;
        left_over = ap (λ l. l ++ bytes_of f.reads) terminated;
        chunks = r.at.chunks;
      };
      told = r.told;
      ended =
          r.ended
          ∙ not_empty s there
          ∙ sym (not_empty ((w ++ 0 ∷ rest) ++ bytes_of f.reads) (terminated_ne));
      ready = inl (
          omega (
            arith,
            ready_size name f pos s r there,
            length-set f.readbuf (f.readoff + length w) 0,
          ));
    }
      where
        terminated_ne : (w ++ 0 ∷ rest) ++ bytes_of f.reads ≢ []
        terminated_ne h =
            cons_ne w 0 (rest ++ bytes_of f.reads)
              (sym (append_assoc w (0 ∷ rest) (bytes_of f.reads)) ∙ h)

    -- The terminator is skipped with the word.
    pub skip_terminated :
        (f' : SequentialFile) × (bufferskip name (length w + 1) (terminate (length w) f) ≡ ok f')
        × Reads f' (pos + (length w + 1)) (rest ++ bytes_of f.reads)
    unfolding terminate
    skip_terminated =
        let n = length w + 1 in
        let off = f.readoff in
        let size : length (drop off f.readbuf) ≡ length w + suc (length rest) =
          ap length e ∙ length-append w (b ∷ rest) in
        let fits : n ≤ length (set f.readbuf (off + length w) 0) - off =
          omega (arith, size, length-drop off f.readbuf, length-set f.readbuf (off + length w) 0) in
        let ne = λ (h : (w ++ 0 ∷ rest) ++ bytes_of f.reads ≡ []).
          cons_ne w 0 (rest ++ bytes_of f.reads)
            (sym (append_assoc w (0 ∷ rest) (bytes_of f.reads)) ∙ h) in
        let (f', skips, reads) =
          bufferskip-Reads name (terminate (length w) f) pos ((w ++ 0 ∷ rest) ++ bytes_of f.reads)
            terminate-Reads n ne fits in
        (
          f',
          skips,
          subst (λ l. Reads f' (pos + n) (l ++ bytes_of f.reads))
              (ap (drop n) terminated ∙ drop_next w 0 rest) reads,
        )
