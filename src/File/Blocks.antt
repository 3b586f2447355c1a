-- ===== src/File/Blocks.antt =====
-- A regular file that is read from its start by whole buffers: where the buffer ends.
use wdedup.Prelude.{
  ℕ, zero, suc, ◌+◌, ◌-◌, ◌%◌, ◌≤◌, ◌≡◌, refl, sym, ap, subst, ◌∙◌, List, [], ◌∷◌, ◌++◌, length,
  take, drop, arith, ◌⊎◌, inl, inr, min, length-take, length-drop, take-append-drop, ℕ_discrete,
  Bool, false, Bool-cases, dec_lt, ◌==◌, if◌then◌else◌,
}
use wdedup.Errors.{Result, ok, err, fault, stuck, Error, ◌>>=◌}
use wdedup.File.{
  ReadResult, got, failed, SequentialFile, refilled, check_read, refill_read, refill, read_loop,
  read, settle, open_file, buffer_size, reads_within, reads_of,
}
use wdedup.File.Stream.{
  AreChunks, bytes_of, Reads, taken, open_file-Reads, settle_ready, settle_empty,
}

-- All reads but the last fill the buffer.
abbrev pub AreBlocks : List ReadResult → Type 0
AreBlocks [] = Unit {0}
AreBlocks (got bytes ∷ reads) =
    (length bytes ≤ buffer_size) × ((reads ≡ []) ⊎ (length bytes ≡ buffer_size)) × AreBlocks reads
AreBlocks (failed eno ∷ reads) = ⊥

-- The buffer starts at a multiple of its size, and holds the whole size unless the file ends in it.
pub record IsBlocked (f : SequentialFile) : Type 0 where
  pub start : f.filetell % buffer_size ≡ 0
  pub size : length f.readbuf ≤ buffer_size
  pub whole : (f.reads ≡ []) ⊎ (length f.readbuf % buffer_size ≡ 0)
  pub blocks : AreBlocks f.reads

next_start : (a n : ℕ) → a % buffer_size ≡ 0 → n % buffer_size ≡ 0 → (a + n) % buffer_size ≡ 0
next_start a n h k = omega (arith, h, k)

refilled-IsBlocked :
    (bytes : List ℕ) (reads : List ReadResult) (f : SequentialFile)
    → f.reads ≡ got bytes ∷ reads
    → IsBlocked f
    → IsBlocked (refilled bytes reads f)
refilled-IsBlocked bytes reads f e b =
    let (size, whole, blocks) = subst AreBlocks e b.blocks in
    record {
      start = elim b.whole [
        | inl none_left ↦ absurd (cc)
        | inr full ↦ next_start f.filetell (length f.readbuf) b.start full
      ];
      size = size;
      whole = elim whole [ inl last ↦ inl last | inr full ↦ inr (omega (arith, full)) ];
      blocks = blocks;
    }

check_read-IsBlocked :
    (reads : List ReadResult) (f : SequentialFile)
    → f.reads ≡ reads
    → IsBlocked f
    → IsBlocked (check_read reads f).1
unfolding check_read
check_read-IsBlocked [] f e b = b
check_read-IsBlocked (failed eno ∷ reads) f e b = absurd (subst AreBlocks e b.blocks)
check_read-IsBlocked (got [] ∷ reads) f e b =
    let (size, whole, blocks) = subst AreBlocks e b.blocks in
    record {
      start = b.start;
      size = b.size;
      whole = elim b.whole [ inl none_left ↦ absurd (cc) | inr full ↦ inr full ];
      blocks = blocks;
    }
check_read-IsBlocked (got (x ∷ bytes) ∷ reads) f e b = refilled-IsBlocked (x ∷ bytes) reads f e b

pub settle-IsBlocked : (f : SequentialFile) → IsBlocked f → IsBlocked (settle f)
settle-IsBlocked f b = elim (ℕ_discrete f.readoff (length f.readbuf)) [
  | yes y ↦
      let g = record f { tell = f.filetell + f.readoff } in
      let c =
        check_read-IsBlocked f.reads g refl
          (record { start = b.start; size = b.size; whole = b.whole; blocks = b.blocks }) in
      subst IsBlocked (sym (settle_empty f y))
        (record { start = c.start; size = c.size; whole = c.whole; blocks = c.blocks })
  | no n ↦
      subst IsBlocked (sym (settle_ready f n))
        (record { start = b.start; size = b.size; whole = b.whole; blocks = b.blocks })
]

pub taken-IsBlocked : (n : ℕ) (f : SequentialFile) → IsBlocked f → IsBlocked (taken n f)
taken-IsBlocked n f b = record {
  start = b.start;
  size = b.size;
  whole = b.whole;
  blocks = b.blocks;
}

-- What a read returns is blocked, if it returns.
abbrev LeavesBlocked : Result (List ℕ × SequentialFile) → Type 0
LeavesBlocked (ok (bytes, f)) = IsBlocked f
LeavesBlocked (err e) = Unit {0}
LeavesBlocked fault = Unit {0}
LeavesBlocked stuck = Unit {0}

prefixed-LeavesBlocked :
    (a : List ℕ) (m : Result (List ℕ × SequentialFile))
    → LeavesBlocked m
    → LeavesBlocked (m >>= λ x. ok (a ++ x.0, x.1))
prefixed-LeavesBlocked a (ok x) h = h
prefixed-LeavesBlocked a (err e) h = tt
prefixed-LeavesBlocked a fault h = tt
prefixed-LeavesBlocked a stuck h = tt

settled-LeavesBlocked :
    (m : Result (List ℕ × SequentialFile))
    → LeavesBlocked m
    → LeavesBlocked (m >>= λ x. ok (x.0, settle x.1))
settled-LeavesBlocked (ok x) h = settle-IsBlocked x.1 h
settled-LeavesBlocked (err e) h = tt
settled-LeavesBlocked fault h = tt
settled-LeavesBlocked stuck h = tt

module _ (file : Error) where
  after_refill :
      (f : SequentialFile) (P : Result SequentialFile → Type 0)
      → IsBlocked f
      → ((f' : SequentialFile) → IsBlocked f' → P (ok f'))
      → ((e : Error) → P (err e))
      → P (refill file f)
  unfolding refill refill_read
  after_refill f P b good bad = elim (Bool-cases (f.readoff == length f.readbuf)) [
    | inl y ↦
        subst (λ (c : Bool). P (if c then refill_read file f.reads f else ok f)) (sym y)
          (by_reads f.reads refl)
    | inr n ↦
        subst (λ (c : Bool). P (if c then refill_read file f.reads f else ok f)) (sym n) (good f b)
  ]
    where
      by_reads : (reads : List ReadResult) → f.reads ≡ reads → P (refill_read file reads f)
      by_reads [] e = bad _
      by_reads (failed eno ∷ reads) e = bad _
      by_reads (got [] ∷ reads) e = bad _
      by_reads (got (x ∷ bytes) ∷ reads) e = good _ (refilled-IsBlocked (x ∷ bytes) reads f e b)

  read_loop-LeavesBlocked :
      (fuel size : ℕ) (f : SequentialFile)
      → IsBlocked f
      → LeavesBlocked (read_loop file fuel size f)
  unfolding read_loop
  read_loop-LeavesBlocked zero size f b = tt
  read_loop-LeavesBlocked (suc fuel) zero f b = b
  read_loop-LeavesBlocked (suc fuel) (suc size) f b =
      after_refill f
        (λ (m : Result SequentialFile). LeavesBlocked (
          m >>= λ f'.
          let current = min (length f'.readbuf - f'.readoff) (suc size) in
          read_loop file fuel (suc size - current) (record f' { readoff = f'.readoff + current })
          >>= λ x. ok (take current (drop f'.readoff f'.readbuf) ++ x.0, x.1)))
        b
        (λ f' c.
          let current = min (length f'.readbuf - f'.readoff) (suc size) in
          prefixed-LeavesBlocked (take current (drop f'.readoff f'.readbuf)) _ (
            read_loop-LeavesBlocked fuel (suc size - current) (taken current f')
              (taken-IsBlocked current f' c)))
        (λ e. tt)

  pub read-IsBlocked :
      (size : ℕ) (f f' : SequentialFile) (bytes : List ℕ)
      → IsBlocked f
      → read file size f ≡ ok (bytes, f')
      → IsBlocked f'
  unfolding read
  read-IsBlocked size f f' bytes b e = subst LeavesBlocked e (
      settled-LeavesBlocked (read_loop file (size + 1) size f)
        (read_loop-LeavesBlocked (size + 1) size f b))

reads_none : (fuel : ℕ) (l : List ℕ) → length l ≡ 0 → reads_within fuel l ≡ []
reads_none zero l h = refl
reads_none (suc fuel) [] h = refl
reads_none (suc fuel) (b ∷ l) h = absurd (omega arith)

full_or_last :
    (fuel : ℕ) (l : List ℕ)
    → (reads_within fuel (drop buffer_size l) ≡ []) ⊎ (length (take buffer_size l) ≡ buffer_size)
full_or_last fuel l = elim (dec_lt (length l) buffer_size) [
  | yes h ↦ inl (reads_none fuel (drop buffer_size l) (omega (arith, h, length-drop buffer_size l)))
  | no h ↦ inr (omega (arith, h, length-take buffer_size l))
]

-- The reads of a regular file.
reads_within-lem :
    (fuel : ℕ) (bytes : List ℕ)
    → length bytes ≤ fuel
    → AreChunks (reads_within fuel bytes)
      × AreBlocks (reads_within fuel bytes)
      × (bytes_of (reads_within fuel bytes) ≡ bytes)
reads_within-lem zero [] h = (tt, tt, refl)
reads_within-lem zero (b ∷ bytes) h = absurd (omega arith)
reads_within-lem (suc fuel) [] h = (tt, tt, refl)
reads_within-lem (suc fuel) (b ∷ bytes) h =
    let rest = drop buffer_size (b ∷ bytes) in
    let (chunks, blocks, same) =
      reads_within-lem fuel rest (omega (arith, length-drop buffer_size (b ∷ bytes))) in
    (
      chunks,
      (omega (arith, length-take buffer_size (b ∷ bytes)), full_or_last fuel (b ∷ bytes), blocks),
      ap (◌++◌ (take buffer_size (b ∷ bytes))) same ∙ take-append-drop buffer_size (b ∷ bytes),
    )

-- A regular file that was opened stands before its bytes.
pub opened-IsBlocked :
    (bytes : List ℕ)
    → Reads (open_file 0 (reads_of bytes)) 0 bytes × IsBlocked (open_file 0 (reads_of bytes))
unfolding open_file reads_of
opened-IsBlocked bytes =
    let (chunks, blocks, same) = reads_within-lem (length bytes) bytes (omega arith) in
    (
      subst (Reads (open_file 0 (reads_within (length bytes) bytes)) 0) same
          (open_file-Reads 0 (reads_within (length bytes) bytes) chunks),
      settle-IsBlocked
          (record {
            reads = reads_within (length bytes) bytes;
            readbuf = [];
            readoff = 0;
            filetell = 0;
            tell = 0;
            eof = false;
          })
          (record {
            start = omega arith;
            size = omega arith;
            whole = inr (omega arith);
            blocks = blocks;
          }),
    )
