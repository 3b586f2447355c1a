-- ===== src/Reader/Gather.antt =====
-- `readString`: a word that is found in the buffer, or gathered from several buffers.
use wdedup.Prelude.{
  ℕ, zero, suc, ◌+◌, ◌-◌, ◌<◌, ◌≡◌, ◌≢◌, refl, sym, ap, subst, ◌∙◌, true, false, List, [], ◌∷◌,
  ◌++◌, if◌then◌else◌, length, take, arith, inl, inr, Option, none, some, All, length-drop,
  length-append, append_assoc, append-nil,
}
use wdedup.Errors.{Result, ok, Error, ◌>>=◌}
use wdedup.Word.{Word}
use wdedup.File.{SequentialFile, bufferptr, bufferskip}
use wdedup.File.Stream.{bytes_of, Reads, is_end, drop_all}
use wdedup.File.Text.{buffered, bufferptr_open, bufferskip-Reads, not_empty, is_empty}
use wdedup.Reader.{is_whitespace, find_byte, terminate, gather_at, gather}
use wdedup.Reader.Spaces.{find_byte-Found, stream-buffered, ready_size}
use wdedup.Reader.Words.{split_word, prepend, split-append, split-found, split-whole, take_exact}
use wdedup.Reader.Terminate.{skip_terminated}

module _ (name : Error) where
  gather_more :
      (cache l : List ℕ) (f : SequentialFile) (more : Result (Word × SequentialFile))
      → gather_at name cache l none f more ≡ more
  unfolding gather_at
  gather_more cache l f more = refl

  gather_found :
      (cache w l : List ℕ) (f f' : SequentialFile) (more : Result (Word × SequentialFile))
      → bufferskip name (length w + 1) (terminate (length w) f) ≡ ok f'
      → gather_at name cache (w ++ l) (some (length w)) f more ≡ ok (cache ++ w, f')
  unfolding gather_at
  gather_found cache w l f f' more e =
      ap (λ m. m >>= λ g. ok (cache ++ take (length w) (w ++ l), g)) e
      ∙ ap (λ u. ok (cache ++ u, f')) (take_exact w l)

  gather_step :
      (fuel : ℕ) (cache l : List ℕ) (f f' : SequentialFile) (pos : ℕ) (s : List ℕ)
      (r : Reads f' pos s) (i : Option ℕ)
      → bufferskip name (length l) f ≡ ok f'
      → s ≢ []
      → find_byte is_whitespace (buffered name f' pos s r) ≡ i
      → gather name (suc fuel) cache l f
        ≡ gather_at name
            (cache ++ l)
            (buffered name f' pos s r)
            i
            f'
            (gather name fuel (cache ++ l) (buffered name f' pos s r) f')
  unfolding gather
  gather_step fuel cache l f f' pos s r i e n h =
      let at = λ (next : List ℕ).
        gather_at name (cache ++ l) next (find_byte is_whitespace next) f'
          (gather name fuel (cache ++ l) next f') in
      let round = λ (g : SequentialFile).
        if g.eof
        then ok (cache ++ l, g)
        else (bufferptr name g >>= λ next.
            gather_at name (cache ++ l) next (find_byte is_whitespace next) g
              (gather name fuel (cache ++ l) next g)) in
      ap (λ m. m >>= round) e
      ∙ ap (λ x. if x then ok (cache ++ l, f') else (bufferptr name f' >>= at))
          (r.ended ∙ not_empty s n)
      ∙ ap (λ m. m >>= at) (bufferptr_open name f' pos s r n)
      ∙ ap
          (λ j.
            gather_at name (cache ++ l) (buffered name f' pos s r) j f'
              (gather name fuel (cache ++ l) (buffered name f' pos s r) f'))
          h

  gather_ended :
      (fuel : ℕ) (cache l : List ℕ) (f f' : SequentialFile)
      → bufferskip name (length l) f ≡ ok f'
      → f'.eof ≡ true
      → gather name (suc fuel) cache l f ≡ ok (cache ++ l, f')
  unfolding gather
  gather_ended fuel cache l f f' e h =
      ap
        (λ m. m >>= λ (g : SequentialFile).
          if g.eof
          then ok (cache ++ l, g)
          else (bufferptr name g >>= λ next.
              gather_at name (cache ++ l) next (find_byte is_whitespace next) g
                (gather name fuel (cache ++ l) next g)))
        e
      ∙ ap
          (λ x.
            if x
            then ok (cache ++ l, f')
            else (bufferptr name f' >>= λ next.
                gather_at name (cache ++ l) next (find_byte is_whitespace next) f'
                  (gather name fuel (cache ++ l) next f')))
          h

  abbrev pub Gathers : List ℕ → Word × ℕ × List ℕ → Result (Word × SequentialFile) → Type 0
  Gathers cache x m = (f' : SequentialFile) × (m ≡ ok (cache ++ x.0, f')) × Reads f' x.1 x.2

  -- A word that does not end in the buffer: `readString` has the rest of it from the stream.
  pub gather-Reads :
      (fuel : ℕ) (cache : List ℕ) (f : SequentialFile) (pos : ℕ) (s : List ℕ) (r : Reads f pos s)
      → length s < fuel
      → s ≢ []
      → All (λ b. is_whitespace b ≡ false) (buffered name f pos s r)
      → Gathers cache (split_word pos s) (gather name fuel cache (buffered name f pos s r) f)
  gather-Reads zero cache f pos s r h n a = absurd (omega arith)
  gather-Reads (suc fuel) cache f pos s r h n a =
      let l = buffered name f pos s r in
      let t = bytes_of f.reads in
      let size : length l ≡ length f.readbuf - f.readoff = length-drop f.readoff f.readbuf in
      let (f1, skips, reads) = bufferskip-Reads name f pos s r (length l) n (omega (arith, size)) in
      let reads1 = subst (λ k. Reads f1 (pos + length l) (k ++ t)) (drop_all l) reads in
      let shorter : length s ≡ length l + length t =
        ap length (stream-buffered name f pos s r) ∙ length-append l t in
      let m = gather name (suc fuel) cache l f in
      let split : split_word pos s ≡ prepend l (split_word (pos + length l) t) =
        ap (split_word pos) (stream-buffered name f pos s r) ∙ split-append l pos t a in
      elim (is_empty t) [
        | inl e ↦
            let alone : split_word pos s ≡ (l, pos + length l, []) =
              ap (split_word pos) (stream-buffered name f pos s r ∙ ap (◌++◌ l) e ∙ append-nil l)
              ∙ split-whole l pos a in
            subst (λ x. Gathers cache x m) (sym alone)
              (
                f1,
                gather_ended fuel cache l f f1 skips (reads1.ended ∙ ap is_end e),
                subst (Reads f1 (pos + length l)) e reads1,
              )
        | inr k ↦
            let next = buffered name f1 (pos + length l) t reads1 in
            elim (find_byte-Found is_whitespace next) [
              | inl (a1, i) ↦
                  let (f', runs, reads') =
                    gather-Reads fuel (cache ++ l) f1 (pos + length l) t reads1
                      (omega (arith, shorter, size, ready_size name f pos s r n)) k a1 in
                  subst (λ x. Gathers cache x m) (sym split)
                    (
                      f',
                      gather_step fuel cache l f f1 (pos + length l) t reads1 none skips k i
                          ∙ gather_more (cache ++ l) next f1 (gather name fuel (cache ++ l) next f1)
                          ∙ runs
                          ∙ ap (λ u. ok (u, f'))
                              (append_assoc cache l (split_word (pos + length l) t).0),
                      reads',
                    )
              | inr (w, b, rest, a1, y, e, i) ↦
                  let (f', skips1, reads') =
                    skip_terminated name f1 (pos + length l) t reads1 w b rest e in
                  let t' = rest ++ bytes_of f1.reads in
                  let found : split_word pos s ≡ (l ++ w, (pos + length l) + (length w + 1), t') =
                    split
                    ∙ ap (λ u. prepend l (split_word (pos + length l) u))
                        (stream-buffered name f1 (pos + length l) t reads1
                          ∙ ap (λ u. u ++ bytes_of f1.reads) e
                          ∙ append_assoc w (b ∷ rest) (bytes_of f1.reads))
                    ∙ ap (prepend l) (split-found w b t' (pos + length l) a1 y) in
                  subst (λ x. Gathers cache x m) (sym found)
                    (
                      f',
                      gather_step fuel cache l f f1 (pos + length l) t reads1 (some (length w))
                            skips k i
                          ∙ ap
                              (λ u.
                                gather_at name (cache ++ l) u (some (length w)) f1
                                  (gather name fuel (cache ++ l) next f1))
                              e
                          ∙ gather_found (cache ++ l) w (b ∷ rest) f1 f' _ skips1
                          ∙ ap (λ u. ok (u, f')) (append_assoc cache l w),
                      reads',
                    )
            ]
      ]
