-- ===== src/File/Cut.antt =====
-- Whether a string of a regular file is cut by the end of the buffer.
use wdedup.Prelude.{
  ℕ, zero, suc, ◌+◌, ◌-◌, ◌%◌, ◌/◌, ◌^◌, ◌<◌, ◌≤◌, ◌≡◌, ◌≢◌, refl, sym, ap, ap₂, subst, ◌∙◌, List,
  [], ◌∷◌, ◌++◌, length, drop, arith, inl, inr, length-drop, none, some, length-append,
}
use wdedup.Errors.{Result, ok, fault, Error, ◌>>=◌}
use wdedup.Word.{Word, NoNull, c_str}
use wdedup.File.{SequentialFile, read, settle, buffer_size, find_null, read_string}
use wdedup.File.Stream.{bytes_of, Reads, taken}
use wdedup.File.Text.{
  bufferskip_open, skipped-Reads, c_str-append, drop_string, string_cut, string_whole,
}
use wdedup.File.Blocks.{IsBlocked, settle-IsBlocked, taken-IsBlocked, read-IsBlocked}
use wdedup.File.{read_char, read_size}
use wdedup.Serial.{put_char, put_size, le_bytes, of_le}
use wdedup.Serial.RoundTrip.{get_bytes-le_bytes, of_le-le_bytes}
use wdedup.File.Read.{ReadAs, read-ReadAs}

-- The place of the first terminator in a part of the bytes.
null_behind :
    (l r w t : List ℕ) → NoNull w → l ++ r ≡ w ++ 0 ∷ t → length l ≤ length w → find_null l ≡ none
unfolding find_null
null_behind [] r w t k e h = refl
null_behind (x ∷ l) r [] t k e h = absurd (omega arith)
null_behind (x ∷ l) r (b ∷ w) t (n, k) e h =
    let same : x ≡ b = cc in
    let rest : l ++ r ≡ w ++ 0 ∷ t = cc in
    ground (arith, same, n, null_behind l r w t k rest (omega arith))

null_within :
    (l r w t : List ℕ)
    → NoNull w
    → l ++ r ≡ w ++ 0 ∷ t
    → length w < length l
    → (rest : List ℕ) × (l ≡ w ++ 0 ∷ rest) × (rest ++ r ≡ t) × (find_null l ≡ some (length w))
unfolding find_null
null_within [] r w t k e h = absurd (omega arith)
null_within (x ∷ l) r [] t k e h =
    let same : x ≡ 0 = cc in
    let rest : l ++ r ≡ t = cc in (l, ap (λ y. y ∷ l) same, rest, ground (arith, same))
null_within (x ∷ l) r (b ∷ w) t (n, k) e h =
    let same : x ≡ b = cc in
    let tail : l ++ r ≡ w ++ 0 ∷ t = cc in
    let (rest, a, c, d) = null_within l r w t k tail (omega arith) in
    (rest, ap₂ ◌∷◌ same a, c, ground (arith, same, n, d))

-- The terminator of the word at `pos` lies in the buffer that the word starts in.
abbrev pub IsWhole : ℕ → Word → Type 0
IsWhole pos w = pos % buffer_size + length w < buffer_size

module _ (file : Error) (f : SequentialFile) (pos : ℕ) (s w t : List ℕ) (r : Reads f pos s)
    (b : IsBlocked f) (k : NoNull w) (same : s ≡ w ++ 0 ∷ t) where
  nonempty : s ≢ []
  nonempty e = not_nil w (sym same ∙ e)
    where
      not_nil : (w : List ℕ) → (w ++ 0 ∷ t) ≢ []
      not_nil [] e = cc
      not_nil (x ∷ w) e = cc

  ahead : drop f.readoff f.readbuf ++ bytes_of f.reads ≡ w ++ 0 ∷ t
  ahead = r.at.left_over ∙ same

  starts : f.readoff < length f.readbuf
  starts = elim r.ready [ inl h ↦ h | inr e ↦ absurd (nonempty e) ]

  offset : pos % buffer_size ≡ f.readoff
  offset = omega (arith, r.at.place, b.start, b.size, starts)

  inside : IsWhole pos w → length w < length (drop f.readoff f.readbuf)
  inside h = elim b.whole [
    | inl last ↦ omega (
      arith,
      ap length ahead,
      length-append (drop f.readoff f.readbuf) (bytes_of f.reads),
      ap (λ l. length (bytes_of l)) last,
      length-append w (0 ∷ t),
    )
    | inr full ↦ omega (arith, h, offset, full, starts, b.size, length-drop f.readoff f.readbuf)
  ]

  outside :
      buffer_size ≤ pos % buffer_size + length w → length (drop f.readoff f.readbuf) ≤ length w
  outside h = omega (arith, h, offset, b.size, length-drop f.readoff f.readbuf)

  -- The word is read, and the file stands behind its terminator.
  pub read_string_whole :
      IsWhole pos w
      → (f' : SequentialFile) × (read_string file f ≡ ok (w, f'))
        × Reads f' (pos + (length w + 1)) t
        × IsBlocked f'
  read_string_whole h =
      let (rest, e, tail, i) =
        null_within (drop f.readoff f.readbuf) (bytes_of f.reads) w t k ahead (inside h) in
      let f' = settle (taken (length w + 1) f) in
      let fits : length w + 1 ≤ length f.readbuf - f.readoff =
        omega (arith, inside h, length-drop f.readoff f.readbuf) in
      let skips = bufferskip_open file f pos s r (length w + 1) nonempty fits in
      let reads = skipped-Reads file f pos s r (length w + 1) fits in
      let after = ap (drop (length w + 1)) e ∙ drop_string w rest in
      (
        f',
        string_whole file f pos s r (length w) f' nonempty i skips
            ∙ ap (λ l. ok (l, f')) (ap c_str e ∙ c_str-append w rest k),
        subst (Reads f' (pos + (length w + 1))) (ap (λ l. l ++ bytes_of f.reads) after ∙ tail)
            reads,
        settle-IsBlocked (taken (length w + 1) f) (taken-IsBlocked (length w + 1) f b),
      )

  -- The word is cut by the end of the buffer.
  pub read_string_cut : buffer_size ≤ pos % buffer_size + length w → read_string file f ≡ fault
  read_string_cut h =
      string_cut file f pos s r nonempty
        (null_behind (drop f.readoff f.readbuf) (bytes_of f.reads) w t k ahead (outside h))

length-le_bytes : (k n : ℕ) → length (le_bytes k n) ≡ k
length-le_bytes zero n = refl
length-le_bytes (suc k) n = omega (arith, length-le_bytes k (n / 256))

-- A number is read back, and the file stands behind it.
module _ (file : Error) (f : SequentialFile) (pos : ℕ) (t : List ℕ) (b : IsBlocked f) where
  read_number :
      (k n : ℕ)
      → Reads f pos (le_bytes k n ++ t)
      → (f' : SequentialFile) × (read file k f ≡ ok (le_bytes k n, f'))
        × Reads f' (pos + k) t
        × IsBlocked f'
  read_number k n r =
      let (f', e, reads) =
        subst (λ m. ReadAs Reads pos m (read file k f)) (get_bytes-le_bytes file k n t)
          (read-ReadAs file k pos (le_bytes k n ++ t) f r) in
      (
        f',
        e,
        subst (λ j. Reads f' (pos + j) t) (length-le_bytes k n) reads,
        read-IsBlocked file k f f' (le_bytes k n) b e,
      )

  pub read_char-put_char :
      (n : ℕ)
      → n < 256
      → Reads f pos (put_char n ++ t)
      → (f' : SequentialFile) × (read_char file f ≡ ok (n, f'))
        × Reads f' (pos + 1) t
        × IsBlocked f'
  unfolding read_char put_char
  read_char-put_char n h r =
      let (f', e, reads, b') = read_number 1 n r in
      (
        f',
        ap (λ (m : Result (List ℕ × SequentialFile)). m >>= λ x. ok (of_le x.0, x.1)) e
            ∙ ap (λ v. ok (v, f')) (of_le-le_bytes 1 n h),
        reads,
        b',
      )

  pub read_size-put_size :
      (n : ℕ)
      → n < 2 ^ 64
      → Reads f pos (put_size n ++ t)
      → (f' : SequentialFile) × (read_size file f ≡ ok (n, f'))
        × Reads f' (pos + 8) t
        × IsBlocked f'
  unfolding read_size put_size
  read_size-put_size n h r =
      let (f', e, reads, b') = read_number 8 n r in
      (
        f',
        ap (λ (m : Result (List ℕ × SequentialFile)). m >>= λ x. ok (of_le x.0, x.1)) e
            ∙ ap (λ v. ok (v, f')) (of_le-le_bytes 8 n h),
        reads,
        b',
      )
