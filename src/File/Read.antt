-- ===== src/File/Read.antt =====
-- `read` of a sequential file, as the read of a stream.
use wdedup.Prelude.{
  ℕ, zero, suc, ◌+◌, ◌-◌, ◌<◌, ◌≡◌, refl, sym, ap, ap₂, subst, ◌∙◌, List, [], ◌∷◌, ◌++◌, length,
  min, take, drop, arith, ◌⊎◌, inl, inr, ℕ_discrete, length-drop, length-take, length-append,
  append_assoc, take-append-drop,
}
use wdedup.Errors.{Result, ok, err, fault, stuck, Error, eio, ◌>>=◌}
use wdedup.Serial.{get_bytes}
use wdedup.File.{
  ReadResult, got, failed, SequentialFile, refilled, refill_read, refill, read_loop, read, settle,
}
use wdedup.File.Stream.{
  AreChunks, bytes_of, left_bytes, left_bytes_empty, At, Reads, settle-Reads, taken, taken-At,
}

-- What a read of the file promises, for what the same read of the stream gives: the same bytes, with
-- the file that far on, or the same error.
abbrev pub ReadAs :
    (SequentialFile → ℕ → List ℕ → Type 0)
    → ℕ
    → Result (List ℕ × List ℕ)
    → Result (List ℕ × SequentialFile)
    → Type 0
ReadAs P pos (ok (bytes, s)) x =
    (f : SequentialFile) × (x ≡ ok (bytes, f)) × P f (pos + length bytes) s
ReadAs P pos (err e) x = x ≡ err e
ReadAs P pos fault x = x ≡ fault
ReadAs P pos stuck x = x ≡ stuck

-- The result of a read, with bytes that were read before it.
abbrev prefixed {ℓ} : {S : Type ℓ} → List ℕ → Result (List ℕ × S) → Result (List ℕ × S)
prefixed a m = m >>= λ x. ok (a ++ x.0, x.1)

prefixed-nil {ℓ} : {S : Type ℓ} (m : Result (List ℕ × S)) → prefixed [] m ≡ m
prefixed-nil (ok x) = refl
prefixed-nil (err e) = refl
prefixed-nil fault = refl
prefixed-nil stuck = refl

prefixed-cons {ℓ} :
    {S : Type ℓ} (b : ℕ) (a : List ℕ) (m : Result (List ℕ × S))
    → prefixed (b ∷ []) (prefixed a m) ≡ prefixed (b ∷ a) m
prefixed-cons b a (ok x) = refl
prefixed-cons b a (err e) = refl
prefixed-cons b a fault = refl
prefixed-cons b a stuck = refl

module _ (file : Error) where
  get_bytes-append :
      (a t : List ℕ) (n : ℕ)
      → get_bytes file (length a + n) (a ++ t) ≡ prefixed a (get_bytes file n t)
  unfolding get_bytes
  get_bytes-append [] t n =
      ap (λ k. get_bytes file k t) {x = 0 + n} {y = n} (omega arith)
      ∙ sym (prefixed-nil (get_bytes file n t))
  get_bytes-append (b ∷ a) t n =
      ap (λ k. get_bytes file k (b ∷ a ++ t)) {x = suc (length a) + n} {y = suc (length a + n)}
        (omega arith)
      ∙ ap (prefixed (b ∷ [])) (get_bytes-append a t n)
      ∙ prefixed-cons b a (get_bytes file n t)

  ReadAs-prefix :
      (P : SequentialFile → ℕ → List ℕ → Type 0) (a : List ℕ) (pos : ℕ)
      (m : Result (List ℕ × List ℕ)) (x : Result (List ℕ × SequentialFile))
      → ReadAs P (pos + length a) m x
      → ReadAs P pos (prefixed a m) (prefixed a x)
  ReadAs-prefix P a pos (ok (bytes, s)) x (f, e, p) =
      (f, ap (prefixed a) e, subst (λ k. P f k s) (omega (arith, length-append a bytes)) p)
  ReadAs-prefix P a pos (err e) x h = rw h refl
  ReadAs-prefix P a pos fault x h = rw h refl
  ReadAs-prefix P a pos stuck x h = rw h refl

  Refilled : SequentialFile → ℕ → List ℕ → Type 0
  Refilled f pos s =
      ((s ≡ []) × (refill file f ≡ err (record file { eno = eio })))
      ⊎ ((f' : SequentialFile) × (refill file f ≡ ok f')
          × At f' pos s
          × (f'.readoff < length f'.readbuf))

  refill_read-Refilled :
      (reads : List ReadResult) (f : SequentialFile) (pos : ℕ) (s : List ℕ)
      → f.reads ≡ reads
      → f.readoff ≡ length f.readbuf
      → At f pos s
      → refill file f ≡ refill_read file reads f
      → Refilled f pos s
  unfolding Refilled refill_read
  refill_read-Refilled [] f pos s r o a h =
      inl (sym a.left_over ∙ left_bytes_empty f o ∙ ap bytes_of r, h)
  refill_read-Refilled (got [] ∷ reads) f pos s r o a h = absurd (subst AreChunks r a.chunks)
  refill_read-Refilled (failed eno ∷ reads) f pos s r o a h = absurd (subst AreChunks r a.chunks)
  refill_read-Refilled (got (b ∷ bytes) ∷ reads) f pos s r o a h = inr (
    refilled (b ∷ bytes) reads f,
    h,
    record {
      within = omega arith;
      place = omega (arith, a.place, o);
      left_over = sym (ap bytes_of r) ∙ sym (left_bytes_empty f o) ∙ a.left_over;
      chunks = subst AreChunks r a.chunks;
    },
    omega arith,
  )

  refill-Refilled : (f : SequentialFile) (pos : ℕ) (s : List ℕ) → At f pos s → Refilled f pos s
  unfolding Refilled refill
  refill-Refilled f pos s a = elim (ℕ_discrete f.readoff (length f.readbuf)) [
    | yes e ↦ refill_read-Refilled f.reads f pos s refl e a (ground arith)
    | no n ↦ inr (f, ground arith, a, omega (arith, a.within))
  ]

  -- A round of the loop, from a buffer that is not empty.
  room : ℕ → SequentialFile → ℕ
  room size f = min (length f.readbuf - f.readoff) (suc size)

  read_loop_step :
      (fuel size : ℕ) (f f' : SequentialFile)
      → refill file f ≡ ok f'
      → read_loop file (suc fuel) (suc size) f
        ≡ prefixed
            (take (room size f') (drop f'.readoff f'.readbuf))
            (read_loop file fuel (suc size - room size f') (taken (room size f') f'))
  unfolding read_loop room
  read_loop_step fuel size f f' r = rw (r, read_loop) refl

  get_bytes_step :
      (size : ℕ) (f : SequentialFile)
      → get_bytes file (suc size) (left_bytes f)
        ≡ prefixed (take (room size f) (drop f.readoff f.readbuf)) (
            get_bytes file
              (suc size - room size f)
              (drop (room size f) (drop f.readoff f.readbuf) ++ bytes_of f.reads))
  unfolding room
  get_bytes_step size f =
      let buffered = drop f.readoff f.readbuf in
      let k = room size f in
      let n : length (take k buffered) ≡ k =
        omega (arith, length-take k buffered, length-drop f.readoff f.readbuf) in
      ap₂ (get_bytes file) {x = suc size} {y = length (take k buffered) + (suc size - k)}
        (omega (arith, n))
        (ap (λ l. l ++ bytes_of f.reads) (sym (take-append-drop k buffered))
          ∙ append_assoc (take k buffered) (drop k buffered) (bytes_of f.reads))
      ∙ get_bytes-append (take k buffered) (drop k buffered ++ bytes_of f.reads) (suc size - k)

  read_loop-ReadAs :
      (fuel size : ℕ) (f : SequentialFile) (pos : ℕ) (s : List ℕ)
      → size < fuel
      → At f pos s
      → ReadAs At pos (get_bytes file size s) (read_loop file fuel size f)
  unfolding get_bytes read_loop Refilled room
  read_loop-ReadAs zero size f pos s h a = absurd (omega arith)
  read_loop-ReadAs (suc fuel) zero f pos s h a = (f, refl, subst (λ k. At f k s) (omega arith) a)
  read_loop-ReadAs (suc fuel) (suc size) f pos s h a = elim (refill-Refilled f pos s a) [
    | inl (e, r) ↦
        subst
          (λ t.
            ReadAs At pos (get_bytes file (suc size) t) (read_loop file (suc fuel) (suc size) f))
          (sym e) (rw (r, read_loop) refl)
    | inr (f', r, a', h') ↦
        let k = room size f' in
        let buffered = drop f'.readoff f'.readbuf in
        let n : length (take k buffered) ≡ k =
          omega (arith, length-take k buffered, length-drop f'.readoff f'.readbuf) in
        let rest = drop k buffered ++ bytes_of f'.reads in
        let there =
          taken-At k f' pos (omega arith) (record {
            within = a'.within;
            place = a'.place;
            left_over = refl;
            chunks = a'.chunks;
          }) in
        let ih =
          read_loop-ReadAs fuel (suc size - k) (taken k f') (pos + k) rest (omega arith) there in
        subst (λ m. ReadAs At pos m (read_loop file (suc fuel) (suc size) f))
          (sym (ap (get_bytes file (suc size)) (sym a'.left_over) ∙ get_bytes_step size f'))
          (subst (ReadAs At pos _) (sym (read_loop_step fuel size f f' r)) (
            ReadAs-prefix At (take k buffered) pos (get_bytes file (suc size - k) rest) _ (
              subst
                (λ j.
                  ReadAs At (pos + j) (get_bytes file (suc size - k) rest)
                    (read_loop file fuel (suc size - k) (taken k f')))
                (sym n) ih)))
  ]

  settled :
      (m : Result (List ℕ × List ℕ)) (x : Result (List ℕ × SequentialFile)) (pos : ℕ)
      → ReadAs At pos m x
      → ReadAs Reads pos m (x >>= λ y. ok (y.0, settle y.1))
  settled (ok (bytes, s)) x pos (f, e, a) = (
    settle f,
    ap (λ (y : Result (List ℕ × SequentialFile)). y >>= λ z. ok (z.0, settle z.1)) e,
    settle-Reads f _ s a,
  )
  settled (err e) x pos h = rw h refl
  settled fault x pos h = rw h refl
  settled stuck x pos h = rw h refl

  -- `read` of a sequential file that stands at a position before some bytes, whose reads all succeed,
  -- gives what the same read of the stream of those bytes gives: either the bytes asked for,
  -- with the file that far on, or the error of a premature end.
  pub read-ReadAs :
      (size pos : ℕ) (s : List ℕ) (f : SequentialFile)
      → Reads f pos s
      → ReadAs Reads pos (get_bytes file size s) (read file size f)
  unfolding read
  read-ReadAs size pos s f r =
      settled (get_bytes file size s) (read_loop file (size + 1) size f) pos
        (read_loop-ReadAs (size + 1) size f pos s (omega arith) r.at)
