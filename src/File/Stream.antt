-- ===== src/File/Stream.antt =====
-- A sequential file as a stream of bytes at a position: the abstract view of its buffer.
use wdedup.Prelude.{
  ℕ, zero, suc, ◌+◌, ◌-◌, ◌≤◌, ◌<◌, ◌≡◌, ◌≢◌, refl, sym, ap, subst, ◌∙◌, Bool, true, false, List,
  [], ◌∷◌, ◌++◌, length, drop, arith, ◌⊎◌, inl, inr, ℕ_discrete,
}
use wdedup.File.{ReadResult, got, failed, SequentialFile, check_read, settle, open_file}

-- All reads give bytes until the file ends.
abbrev pub AreChunks : List ReadResult → Type 0
AreChunks [] = Unit {0}
AreChunks (got [] ∷ reads) = ⊥
AreChunks (got (b ∷ bytes) ∷ reads) = AreChunks reads
AreChunks (failed eno ∷ reads) = ⊥

-- The bytes of the reads to come.
abbrev pub bytes_of : List ReadResult → List ℕ
bytes_of [] = []
bytes_of (got bytes ∷ reads) = bytes ++ bytes_of reads
bytes_of (failed eno ∷ reads) = bytes_of reads

-- What is left to read, buffered or not.
abbrev pub left_bytes : SequentialFile → List ℕ
left_bytes f = drop f.readoff f.readbuf ++ bytes_of f.reads

-- The file stands at a position before the bytes `s`, whatever it says of itself.
pub record At (f : SequentialFile) (pos : ℕ) (s : List ℕ) : Type 0 where
  pub within : f.readoff ≤ length f.readbuf
  pub place : f.filetell + f.readoff ≡ pos
  pub left_over : left_bytes f ≡ s
  pub chunks : AreChunks f.reads

-- The test for the end of a stream.
abbrev pub is_end : List ℕ → Bool
is_end [] = true
is_end (b ∷ s) = false

-- It also says so: `tell` is the position, `eof` the end, and there are bytes in the buffer before the end.
pub record Reads (f : SequentialFile) (pos : ℕ) (s : List ℕ) : Type 0 where
  pub at : At f pos s
  pub told : f.tell ≡ pos
  pub ended : f.eof ≡ is_end s
  pub ready : (f.readoff < length f.readbuf) ⊎ (s ≡ [])

pub drop_all : (l : List ℕ) → drop (length l) l ≡ []
drop_all [] = refl
drop_all (x ∷ l) = drop_all l

pub left_bytes_empty :
    (f : SequentialFile) → f.readoff ≡ length f.readbuf → left_bytes f ≡ bytes_of f.reads
left_bytes_empty f e = ap (λ n. drop n f.readbuf ++ bytes_of f.reads) e ∙ rw (drop_all f.readbuf)

check-Reads :
    (reads : List ReadResult) (f : SequentialFile) (pos : ℕ) (s : List ℕ)
    → f.reads ≡ reads
    → f.readoff ≡ length f.readbuf
    → f.filetell + f.readoff ≡ pos
    → f.tell ≡ pos
    → bytes_of reads ≡ s
    → AreChunks reads
    → (let (e, f') = check_read reads f in Reads (record f' { eof = e }) pos s)
unfolding check_read
check-Reads [] f pos s r o p t b c = record {
  at = record {
    within = omega arith;
    place = p;
    left_over = left_bytes_empty f o ∙ ap bytes_of r ∙ b;
    chunks = subst AreChunks (sym r) tt;
  };
  told = t;
  ended = ap is_end b;
  ready = inr (sym b);
}
check-Reads (got [] ∷ reads) f pos s r o p t b c = absurd c
check-Reads (failed eno ∷ reads) f pos s r o p t b c = absurd c
check-Reads (got (x ∷ bytes) ∷ reads) f pos s r o p t b c = record {
  at = record { within = omega arith; place = omega arith; left_over = b; chunks = c };
  told = t;
  ended = ap is_end b;
  ready = inl (omega arith);
}

pub settle_ready :
    (f : SequentialFile)
    → f.readoff ≢ length f.readbuf
    → settle f ≡ record f { tell = f.filetell + f.readoff; eof = false }
unfolding settle
settle_ready f n = ground arith

pub settle_empty :
    (f : SequentialFile)
    → f.readoff ≡ length f.readbuf
    → settle f ≡ (
        let (e, f') = check_read f.reads (record f { tell = f.filetell + f.readoff }) in
        record f' { eof = e })
unfolding settle
settle_empty f e = ground arith

not_end : (s t : List ℕ) (n : ℕ) (l : List ℕ) → n < length l → drop n l ++ t ≡ s → is_end s ≡ false
not_end s t n [] h e = absurd (omega arith)
not_end s t zero (x ∷ l) h e = ap is_end (sym e)
not_end s t (suc n) (x ∷ l) h e = not_end s t n l (omega arith) e

-- Wherever the file stands, it tells so once it has settled.
pub settle-Reads : (f : SequentialFile) (pos : ℕ) (s : List ℕ) → At f pos s → Reads (settle f) pos s
settle-Reads f pos s a = elim (ℕ_discrete f.readoff (length f.readbuf)) [
  | yes e ↦
      subst (λ g. Reads g pos s) (sym (settle_empty f e))
        (check-Reads f.reads _ pos s refl e a.place a.place
          (sym (left_bytes_empty f e) ∙ a.left_over) a.chunks)
  | no n ↦
      let h : f.readoff < length f.readbuf = omega (arith, a.within) in
      subst (λ g. Reads g pos s) (sym (settle_ready f n))
        (record {
          at = record {
            within = a.within;
            place = a.place;
            left_over = a.left_over;
            chunks = a.chunks;
          };
          told = a.place;
          ended = sym (not_end s (bytes_of f.reads) f.readoff f.readbuf h a.left_over);
          ready = inl h;
        })
]

-- A file that was opened stands at `seekset`, before all its bytes.
pub open_file-Reads :
    (seekset : ℕ) (reads : List ReadResult)
    → AreChunks reads
    → Reads (open_file seekset reads) seekset (bytes_of reads)
unfolding open_file
open_file-Reads seekset reads c =
    settle-Reads
      (record {
        reads = reads;
        readbuf = [];
        readoff = 0;
        filetell = seekset;
        tell = seekset;
        eof = false;
      })
      seekset (bytes_of reads)
      (record { within = omega arith; place = omega arith; left_over = refl; chunks = c })

drop_none : (n : ℕ) → drop {A = ℕ} n [] ≡ []
drop_none zero = refl
drop_none (suc n) = refl

pub drop-drop : (n k : ℕ) (l : List ℕ) → drop (n + k) l ≡ drop k (drop n l)
drop-drop n k [] = drop_none (n + k) ∙ sym (drop_none k) ∙ ap (drop k) (sym (drop_none n))
drop-drop zero k (x ∷ l) = ap (λ m. drop m (x ∷ l)) {x = 0 + k} {y = k} (omega arith)
drop-drop (suc n) k (x ∷ l) =
    ap (λ m. drop m (x ∷ l)) {x = suc n + k} {y = suc (n + k)} (omega arith) ∙ drop-drop n k l

-- Some bytes of the buffer are taken.
abbrev pub taken : ℕ → SequentialFile → SequentialFile
taken current f = record f { readoff = f.readoff + current }

pub taken-At :
    (current : ℕ) (f : SequentialFile) (pos : ℕ)
    → current ≤ length f.readbuf - f.readoff
    → At f pos (left_bytes f)
    → At
        (taken current f)
        (pos + current)
        (drop current (drop f.readoff f.readbuf) ++ bytes_of f.reads)
taken-At current f pos h a = record {
  within = omega (arith, a.within);
  place = omega (arith, a.place);
  left_over = ap (λ l. l ++ bytes_of f.reads) (drop-drop f.readoff current f.readbuf);
  chunks = a.chunks;
}
