-- ===== src/File/Text.antt =====
-- `bufferptr`, `bufferskip` and the read of a string from a sequential file.
use wdedup.Prelude.{
  ℕ, suc, ◌+◌, ◌-◌, ◌≤◌, ◌≡◌, ◌≢◌, refl, sym, ap, subst, ◌∙◌, false, List, [], ◌∷◌, ◌++◌, length,
  drop, arith, ◌⊎◌, inl, inr, none, some, length-drop, length-append, append_assoc, ℕ_discrete,
}
use wdedup.Errors.{ok, err, fault, Error, eio, ◌>>=◌}
use wdedup.Word.{Word, NoNull, c_str}
use wdedup.Serial.{get_string, put_string}
use wdedup.Serial.RoundTrip.{get-put_string}
use wdedup.File.{SequentialFile, settle, bufferptr, bufferskip, find_null, string_at, read_string}
use wdedup.File.Stream.{bytes_of, Reads, is_end, settle-Reads, taken, taken-At}

-- The bytes up to a terminator, if there is one.
Split : List ℕ → Type 0
Split p =
    (find_null p ≡ none)
    ⊎ ((w : Word) × (rest : List ℕ) × NoNull w
        × (p ≡ w ++ 0 ∷ rest)
        × (find_null p ≡ some (length w)))

null-Split : (p : List ℕ) → Split p
unfolding Split find_null
null-Split [] = inl refl
null-Split (b ∷ p) = elim (ℕ_discrete b 0) [
  | yes e ↦ inr ([], p, tt, ap (λ x. x ∷ p) e, ground (arith, e))
  | no n ↦ elim (null-Split p) [
    | inl h ↦ inl (ground (arith, n, h))
    | inr (w, rest, k, e, h) ↦ inr (b ∷ w, rest, (n, k), ap (◌∷◌ b) e, ground (arith, n, h))
  ]
]

pub c_str-append : (w rest : List ℕ) → NoNull w → c_str (w ++ 0 ∷ rest) ≡ w
unfolding c_str
c_str-append [] rest h = refl
c_str-append (b ∷ w) rest h = ground (arith, c_str-append w rest h.1)

pub drop_string : (w rest : List ℕ) → drop (length w + 1) (w ++ 0 ∷ rest) ≡ rest
drop_string [] rest = refl
drop_string (b ∷ w) rest =
    ap (λ n. drop n (b ∷ w ++ 0 ∷ rest)) {x = suc (length w) + 1} {y = suc (length w + 1)}
      (omega arith)
    ∙ drop_string w rest

pub not_empty : (s : List ℕ) → s ≢ [] → is_end s ≡ false
not_empty [] h = absurd (h refl)
not_empty (b ∷ s) h = refl

pub is_empty : (s : List ℕ) → (s ≡ []) ⊎ (s ≢ [])
is_empty [] = inl refl
is_empty (b ∷ s) = inr (λ e. cc)

module _ (file : Error) (f : SequentialFile) (pos : ℕ) (s : List ℕ) (r : Reads f pos s) where
  abbrev pub buffered : List ℕ
  buffered = drop f.readoff f.readbuf

  pub bufferptr_open : s ≢ [] → bufferptr file f ≡ ok buffered
  unfolding bufferptr
  bufferptr_open h = ground (arith, r.ended, not_empty s h)

  bufferptr_ended : s ≡ [] → bufferptr file f ≡ err (record file { eno = eio })
  unfolding bufferptr
  bufferptr_ended h = ground (arith, r.ended, ap is_end h)

  pub bufferskip_open :
      (n : ℕ)
      → s ≢ []
      → n ≤ length f.readbuf - f.readoff
      → bufferskip file n f ≡ ok (settle (taken n f))
  unfolding bufferskip
  bufferskip_open n h k =
      let fits : f.readoff + n ≤ length f.readbuf = omega (arith, r.at.within) in
      ground (arith, r.ended, not_empty s h, fits)

  pub skipped-Reads :
      (n : ℕ)
      → n ≤ length f.readbuf - f.readoff
      → Reads (settle (taken n f)) (pos + n) (drop n buffered ++ bytes_of f.reads)
  skipped-Reads n k = settle-Reads (taken n f) _ _ (
      taken-At n f pos k (record {
        within = r.at.within;
        place = r.at.place;
        left_over = refl;
        chunks = r.at.chunks;
      }))

  -- A skip within the buffer moves the file that far on.
  pub bufferskip-Reads :
      (n : ℕ)
      → s ≢ []
      → n ≤ length f.readbuf - f.readoff
      → (f' : SequentialFile) × (bufferskip file n f ≡ ok f')
        × Reads f' (pos + n) (drop n buffered ++ bytes_of f.reads)
  bufferskip-Reads n h k = (settle (taken n f), bufferskip_open n h k, skipped-Reads n k)

  abbrev pub ReadsString : Type 0
  ReadsString =
      ((s ≡ []) × (read_string file f ≡ err (record file { eno = eio })))
      ⊎ (((w : Word) × (t : List ℕ) × (f' : SequentialFile) × (get_string file s ≡ ok (w, t))
            × (read_string file f ≡ ok (w, f'))
            × Reads f' (pos + (length w + 1)) t)
          ⊎ ((s ≢ []) × (find_null buffered ≡ none) × (read_string file f ≡ fault)))

  string_open : s ≢ [] → read_string file f ≡ string_at file buffered (find_null buffered) f
  unfolding read_string
  string_open n = rw (bufferptr_open n) refl

  string_ended : s ≡ [] → read_string file f ≡ err (record file { eno = eio })
  unfolding read_string
  string_ended e = rw (bufferptr_ended e) refl

  pub string_cut : s ≢ [] → find_null buffered ≡ none → read_string file f ≡ fault
  unfolding string_at
  string_cut n e = string_open n ∙ ap (λ i. string_at file buffered i f) e

  pub string_whole :
      (i : ℕ) (f' : SequentialFile)
      → s ≢ []
      → find_null buffered ≡ some i
      → bufferskip file (i + 1) f ≡ ok f'
      → read_string file f ≡ ok (c_str buffered, f')
  unfolding string_at
  string_whole i f' n e k =
      string_open n
      ∙ ap (λ j. string_at file buffered j f) e
      ∙ ap (λ m. m >>= λ g. ok (c_str buffered, g)) k

  -- A string whose terminator is in the buffer.
  whole-ReadsString :
      (w rest : List ℕ)
      → NoNull w
      → buffered ≡ w ++ 0 ∷ rest
      → find_null buffered ≡ some (length w)
      → s ≢ []
      → ReadsString
  whole-ReadsString w rest k e i n =
      let size : length buffered ≡ length w + suc (length rest) =
        ap length e ∙ length-append w (0 ∷ rest) in
      let fits : length w + 1 ≤ length f.readbuf - f.readoff =
        omega (arith, size, length-drop f.readoff f.readbuf) in
      let (f', skips, reads) = bufferskip-Reads (length w + 1) n fits in
      let after : drop (length w + 1) buffered ≡ rest =
        ap (drop (length w + 1)) e ∙ drop_string w rest in
      let t = rest ++ bytes_of f.reads in
      let stream : (put_string w ++ t) ≡ s =
        unfold put_string in
        (append_assoc w (0 ∷ []) t
          ∙ sym (append_assoc w (0 ∷ rest) (bytes_of f.reads))
          ∙ ap (λ l. l ++ bytes_of f.reads) (sym e)
          ∙ r.at.left_over) in
      inr (
        inl (
          w,
          t,
          f',
          ap (get_string file) (sym stream) ∙ get-put_string file w t k,
          string_whole (length w) f' n i skips
              ∙ ap (λ l. ok (l, f')) (ap c_str e ∙ c_str-append w rest k),
          subst (λ l. Reads f' (pos + (length w + 1)) (l ++ bytes_of f.reads)) after reads,
        ))

  -- `operator>>` on a string, from a file that stands at a position before some bytes, whose reads all
  -- succeed. At the end of the file it is an error. If the buffer holds the terminator, the word is that
  -- of the stream, and the file stands behind the terminator. Otherwise the code writes out of bounds.
  pub read_string-ReadsString : ReadsString
  unfolding Split
  read_string-ReadsString = elim (is_empty s) [
    | inl e ↦ inl (e, string_ended e)
    | inr n ↦ elim (null-Split buffered) [
      | inl h ↦ inr (inr (n, h, string_cut n h))
      | inr (w, rest, k, e, i) ↦ whole-ReadsString w rest k e i n
    ]
  ]
