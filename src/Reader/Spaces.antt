-- ===== src/Reader/Spaces.antt =====
-- The whitespace before a word, in a stream and in the file.
use wdedup.Prelude.{
  ℕ, zero, suc, ◌+◌, ◌-◌, ◌<◌, ◌≡◌, ◌≢◌, refl, sym, ap, subst, ◌∙◌, Bool, true, false, not, List,
  [], ◌∷◌, ◌++◌, if◌then◌else◌, length, drop, arith, ◌⊎◌, inl, inr, Option, none, some, All,
  length-drop, length-append, append_assoc, Bool-cases,
}
use wdedup.Errors.{Result, ok, Error, ◌>>=◌}
use wdedup.File.{SequentialFile, bufferptr, bufferskip}
use wdedup.File.Stream.{bytes_of, Reads, is_end, drop_all}
use wdedup.File.Text.{buffered, bufferptr_open, bufferskip-Reads, not_empty, is_empty}
use wdedup.Reader.{is_whitespace, find_byte, eliminate_at, eliminate}

-- What is left of a stream, and where, behind the whitespace at its start.
unfoldable pub skip_spaces : ℕ → List ℕ → ℕ × List ℕ
skip_spaces pos [] = (pos, [])
skip_spaces pos (b ∷ s) = if is_whitespace b then skip_spaces (pos + 1) s else (pos, b ∷ s)

-- The bytes before the first wanted one, if there is one.
abbrev pub Found : (ℕ → Bool) → List ℕ → Type 0
Found wanted l =
    (All (λ b. wanted b ≡ false) l × (find_byte wanted l ≡ none))
    ⊎ ((w : List ℕ) × (b : ℕ) × (rest : List ℕ) × All (λ c. wanted c ≡ false) w
        × (wanted b ≡ true)
        × (l ≡ w ++ b ∷ rest)
        × (find_byte wanted l ≡ some (length w)))

pub find_byte-Found : (wanted : ℕ → Bool) (l : List ℕ) → Found wanted l
unfolding find_byte
find_byte-Found wanted [] = inl (tt, refl)
find_byte-Found wanted (b ∷ l) = elim (Bool-cases (wanted b)) [
  | inl y ↦ inr ([], b, l, tt, y, refl, ground (arith, y))
  | inr n ↦ elim (find_byte-Found wanted l) [
    | inl (a, e) ↦ inl ((n, a), ground (arith, n, e))
    | inr (w, c, rest, a, y, e, i) ↦
        inr (b ∷ w, c, rest, (n, a), y, ap (◌∷◌ b) e, ground (arith, n, i))
  ]
]

spaces-append :
    (w : List ℕ) (pos : ℕ) (t : List ℕ)
    → All (λ b. not (is_whitespace b) ≡ false) w
    → skip_spaces pos (w ++ t) ≡ skip_spaces (pos + length w) t
unfolding skip_spaces
spaces-append [] pos t h = ap (λ p. skip_spaces p t) (omega arith)
spaces-append (b ∷ w) pos t h =
    let next : pos + suc (length w) ≡ (pos + 1) + length w = omega arith in
    ground (arith, h.0, spaces-append w (pos + 1) t h.1, next)

spaces_found :
    (w : List ℕ) (b : ℕ) (t : List ℕ) (pos : ℕ)
    → All (λ c. not (is_whitespace c) ≡ false) w
    → not (is_whitespace b) ≡ true
    → skip_spaces pos (w ++ b ∷ t) ≡ (pos + length w, b ∷ t)
unfolding skip_spaces
spaces_found w b t pos h y = spaces-append w pos (b ∷ t) h ∙ ground (arith, y)

pub drop_exact : (w l : List ℕ) → drop (length w) (w ++ l) ≡ l
drop_exact [] l = refl
drop_exact (b ∷ w) l = drop_exact w l

module _ (name : Error) where
  -- What the buffer holds is the start of the stream.
  pub stream-buffered :
      (f : SequentialFile) (pos : ℕ) (s : List ℕ) (r : Reads f pos s)
      → s ≡ buffered name f pos s r ++ bytes_of f.reads
  stream-buffered f pos s r = sym r.at.left_over

  pub ready_size :
      (f : SequentialFile) (pos : ℕ) (s : List ℕ) (r : Reads f pos s)
      → s ≢ []
      → f.readoff < length f.readbuf
  ready_size f pos s r n = elim r.ready [ inl h ↦ h | inr e ↦ absurd (n e) ]

  eliminate_open :
      (fuel : ℕ) (f : SequentialFile) (pos : ℕ) (s : List ℕ) (r : Reads f pos s) (i : Option ℕ)
      → s ≢ []
      → find_byte (λ c. not (is_whitespace c)) (buffered name f pos s r) ≡ i
      → eliminate name (suc fuel) f
        ≡ eliminate_at name (buffered name f pos s r) i f (λ f'. eliminate name fuel f')
  unfolding eliminate
  eliminate_open fuel f pos s r i n e =
      let open_file : f.eof ≡ false = r.ended ∙ not_empty s n in
      let at = λ (l : List ℕ).
        eliminate_at name l (find_byte (λ c. not (is_whitespace c)) l) f
          (λ f'. eliminate name fuel f') in
      ap (λ x. if x then ok f else (bufferptr name f >>= at)) open_file
      ∙ ap (λ m. m >>= at) (bufferptr_open name f pos s r n)
      ∙ ap (λ j. eliminate_at name (buffered name f pos s r) j f (λ f'. eliminate name fuel f')) e

  eliminate_ended :
      (fuel : ℕ) (f : SequentialFile) → f.eof ≡ true → eliminate name (suc fuel) f ≡ ok f
  unfolding eliminate
  eliminate_ended fuel f e = rw e refl

  skip_some :
      (l : List ℕ) (i : ℕ) (f f' : SequentialFile) (more : SequentialFile → Result SequentialFile)
      → 0 < i
      → bufferskip name i f ≡ ok f'
      → eliminate_at name l (some i) f more ≡ ok f'
  unfolding eliminate_at
  skip_some l i f f' more h e = ground (arith, e)

  skip_all :
      (l : List ℕ) (f f' : SequentialFile) (more : SequentialFile → Result SequentialFile)
      → bufferskip name (length l) f ≡ ok f'
      → eliminate_at name l none f more ≡ more f'
  unfolding eliminate_at
  skip_all l f f' more e = rw e refl

  -- A round that finds another byte.
  found-Reads :
      (f : SequentialFile) (pos : ℕ) (s w : List ℕ) (b : ℕ) (rest : List ℕ) (r : Reads f pos s)
      (more : SequentialFile → Result SequentialFile)
      → s ≢ []
      → buffered name f pos s r ≡ w ++ b ∷ rest
      → (f' : SequentialFile) × (eliminate_at name
            (buffered name f pos s r)
            (some (length w))
            f
            more
          ≡ ok f')
        × Reads f' (pos + length w) (b ∷ rest ++ bytes_of f.reads)
  unfolding eliminate_at
  found-Reads f pos s [] b rest r more n e = (
    f,
    refl,
    subst (λ p. Reads f p (b ∷ rest ++ bytes_of f.reads)) {x = pos} (omega arith)
        (subst (Reads f pos) (stream-buffered f pos s r ∙ ap (λ l. l ++ bytes_of f.reads) e) r),
  )
  found-Reads f pos s (c ∷ w) b rest r more n e =
      let size : length (buffered name f pos s r) ≡ length (c ∷ w) + suc (length rest) =
        ap length e ∙ length-append (c ∷ w) (b ∷ rest) in
      let (f', skips, reads) =
        bufferskip-Reads name f pos s r (length (c ∷ w)) n
          (omega (arith, size, length-drop f.readoff f.readbuf)) in
      (
        f',
        skip_some (buffered name f pos s r) (length (c ∷ w)) f f' more (omega arith) skips,
        subst (λ l. Reads f' (pos + length (c ∷ w)) (l ++ bytes_of f.reads))
            (ap (drop (length (c ∷ w))) e ∙ drop_exact (c ∷ w) (b ∷ rest)) reads,
      )

  -- `eliminateWhitespace` leaves the file behind the whitespace.
  pub eliminate-Reads :
      (fuel : ℕ) (f : SequentialFile) (pos : ℕ) (s : List ℕ)
      → length s < fuel
      → Reads f pos s
      → (f' : SequentialFile) × (eliminate name fuel f ≡ ok f')
        × Reads f' (skip_spaces pos s).0 (skip_spaces pos s).1
  eliminate-Reads zero f pos s h r = absurd (omega arith)
  eliminate-Reads (suc fuel) f pos s h r = elim (is_empty s) [
    | inl e ↦ (
      f,
      eliminate_ended fuel f (r.ended ∙ ap is_end e),
      subst (λ (x : ℕ × List ℕ). Reads f x.0 x.1) {x = (pos, s)} (unfold skip_spaces in rw e refl)
          r,
    )
    | inr n ↦
        let more = λ (g : SequentialFile). eliminate name fuel g in
        let l = buffered name f pos s r in
        elim (find_byte-Found (λ c. not (is_whitespace c)) l) [
          | inl (a, i) ↦
              let t = bytes_of f.reads in
              let size : length l ≡ length f.readbuf - f.readoff =
                length-drop f.readoff f.readbuf in
              let (f1, skips, reads) =
                bufferskip-Reads name f pos s r (length l) n (omega (arith, size)) in
              let reads1 = subst (λ k. Reads f1 (pos + length l) (k ++ t)) (drop_all l) reads in
              let shorter : length s ≡ length l + length t =
                ap length (stream-buffered f pos s r) ∙ length-append l t in
              let (f', runs, reads') =
                eliminate-Reads fuel f1 (pos + length l) t
                  (omega (arith, shorter, size, ready_size f pos s r n)) reads1 in
              (
                f',
                eliminate_open fuel f pos s r none n i ∙ skip_all l f f1 more skips ∙ runs,
                subst (λ (x : ℕ × List ℕ). Reads f' x.0 x.1)
                    (sym
                      (ap (skip_spaces pos) (stream-buffered f pos s r) ∙ spaces-append l pos t a))
                    reads',
              )
          | inr (w, b, rest, a, y, e, i) ↦
              let (f', runs, reads) = found-Reads f pos s w b rest r more n e in
              let whole : s ≡ w ++ (b ∷ (rest ++ bytes_of f.reads)) =
                stream-buffered f pos s r
                ∙ ap (λ k. k ++ bytes_of f.reads) e
                ∙ append_assoc w (b ∷ rest) (bytes_of f.reads) in
              (
                f',
                eliminate_open fuel f pos s r (some (length w)) n i ∙ runs,
                subst (λ (x : ℕ × List ℕ). Reads f' x.0 x.1)
                    (sym (
                      ap (skip_spaces pos) whole
                      ∙ spaces_found w b (rest ++ bytes_of f.reads) pos a y))
                    reads,
              )
        ]
  ]
