-- ===== src/Append/Buffer.antt =====
-- What reaches an append-only file through its buffer.
use wdedup.Prelude.{
  ℕ, zero, suc, ◌+◌, ◌-◌, ◌≤◌, ◌<◌, ◌≡◌, refl, sym, ap, ap₂, ◌∙◌, List, [], ◌∷◌, ◌++◌, min, take,
  drop, arith, length, length-drop, length-take, length-append, append_assoc, append-nil,
  take-append-drop, ℕ_discrete,
}
use wdedup.Errors.{Result, ok, Error, ◌>>=◌}
use wdedup.Append.{AppendFile, base_write, flush_full, write_loop, buffer_write, buffer_sync}

-- Pieces of a file, put together.
abbrev pub concat : List (List ℕ) → List ℕ
concat [] = []
concat (bytes ∷ pieces) = bytes ++ concat pieces

-- What was written, on the disk or not.
abbrev pub written : AppendFile → List ℕ
written f = f.disk ++ f.writebuf

-- The buffer is within its size, and all writes to come succeed in full.
pub record IsSound (bufsiz : ℕ) (f : AppendFile) : Type 0 where
  pub within : length f.writebuf ≤ bufsiz
  pub in_full : f.writes ≡ []

regroup : (d b t r : List ℕ) → (d ++ (b ++ t)) ++ r ≡ (d ++ b) ++ (t ++ r)
regroup d b t r = ap (λ l. l ++ r) (sym (append_assoc d b t)) ∙ append_assoc (d ++ b) t r

module _ (file : Error) (bufsiz : ℕ) (p : 0 < bufsiz) where
  -- The file `f'` has the bytes of `f` and some more.
  abbrev pub Grown : List ℕ → AppendFile → AppendFile → Type 0
  Grown bytes f f' = IsSound bufsiz f' × (written f' ≡ written f ++ bytes)

  flush_full-Grown :
      (f : AppendFile)
      → IsSound bufsiz f
      → (f' : AppendFile) × (flush_full file bufsiz f ≡ ok f')
        × Grown [] f f'
        × (length f'.writebuf < bufsiz)
        × (f'.tell ≡ f.tell)
  unfolding flush_full base_write
  flush_full-Grown f s = elim (ℕ_discrete (length f.writebuf) bufsiz) [
    | yes e ↦ (
      record f { disk = f.disk ++ f.writebuf; writebuf = [] },
      ground (arith, e, s.in_full),
      (record { within = omega arith; in_full = s.in_full }, refl),
      p,
      refl,
    )
    | no n ↦
        (f, ground (arith, n), (s, sym (append-nil (written f))), omega (arith, s.within), refl)
  ]

  write_loop-Grown :
      (fuel : ℕ) (bytes : List ℕ) (f : AppendFile)
      → length bytes < fuel
      → IsSound bufsiz f
      → (f' : AppendFile) × (write_loop file bufsiz fuel bytes f ≡ ok f')
        × Grown bytes f f'
        × (f'.tell ≡ f.tell)
  unfolding write_loop
  write_loop-Grown zero bytes f h s = absurd (omega arith)
  write_loop-Grown (suc fuel) [] f h s = (f, refl, (s, sym (append-nil (written f))), refl)
  write_loop-Grown (suc fuel) (b ∷ bytes) f h s =
      let (f1, e1, (s1, w1), room, t1) = flush_full-Grown f s in
      let l = b ∷ bytes in
      let k = min (bufsiz - length f1.writebuf) (length l) in
      let f2 = record f1 { writebuf = f1.writebuf ++ take k l } in
      let s2 : IsSound bufsiz f2 = record {
        within = omega (arith, length-append f1.writebuf (take k l), length-take k l);
        in_full = s1.in_full;
      } in
      let (f', e, (s', w'), t') =
        write_loop-Grown fuel (drop k l) f2 (omega (arith, length-drop k l)) s2 in
      (
        f',
        ap
              (λ m. m >>= λ (g : AppendFile).
                write_loop file bufsiz fuel (drop (min (bufsiz - length g.writebuf) (length l)) l)
                  (record g {
                    writebuf = g.writebuf ++ take (min (bufsiz - length g.writebuf) (length l)) l;
                  }))
              e1
            ∙ e,
        (
          s',
          w'
              ∙ regroup f1.disk f1.writebuf (take k l) (drop k l)
              ∙ ap₂ ◌++◌ (w1 ∙ append-nil (written f)) (take-append-drop k l),
        ),
        t' ∙ t1,
      )

  -- `write` on the output: it keeps the bytes, in their order, and counts them.
  buffer_write-Grown :
      (bytes : List ℕ) (f : AppendFile)
      → IsSound bufsiz f
      → (f' : AppendFile) × (buffer_write file bufsiz bytes f ≡ ok f')
        × Grown bytes f f'
        × (f'.tell ≡ f.tell + length bytes)
  unfolding buffer_write
  buffer_write-Grown bytes f s =
      let (f', e, (s', w), t) = write_loop-Grown (length bytes + 1) bytes f (omega arith) s in
      (
        record f' { tell = f'.tell + length bytes },
        ap (λ m. m >>= λ (g : AppendFile). ok (record g { tell = g.tell + length bytes })) e,
        (record { within = s'.within; in_full = s'.in_full }, w),
        ap (λ n. n + length bytes) t,
      )

  buffer_sync-Grown :
      (f : AppendFile)
      → IsSound bufsiz f
      → (f' : AppendFile) × (buffer_sync file bufsiz f ≡ ok f')
        × (f'.disk ≡ written f)
        × (f'.tell ≡ f.tell)
  unfolding buffer_sync base_write
  buffer_sync-Grown f s = elim (ℕ_discrete (length f.writebuf) 0) [
    | yes e ↦ (f, ground (arith, e), empty_buffer f.writebuf e, refl)
    | no n ↦ (
      record f { disk = f.disk ++ f.writebuf; writebuf = [] },
      ground (arith, n, s.in_full),
      refl,
      refl,
    )
  ]
    where
      empty_buffer : (l : List ℕ) → length l ≡ 0 → f.disk ≡ f.disk ++ l
      empty_buffer [] h = sym (append-nil f.disk)
      empty_buffer (b ∷ l) h = absurd (omega arith)

  -- Several writes and a `sync`.
  unfoldable pub write_all : List (List ℕ) → AppendFile → Result AppendFile
  write_all [] f = buffer_sync file bufsiz f
  write_all (bytes ∷ pieces) f = do f' ← buffer_write file bufsiz bytes f; write_all pieces f'

  -- The output file: if all writes of the kernel succeed in full, then after any writes and a `sync` the
  -- disk holds what it held, what the buffer held, and what was written, in that order, and
  -- `tell` has grown by the number of bytes that were written.
  pub write_all-disk :
      (pieces : List (List ℕ)) (f : AppendFile)
      → IsSound bufsiz f
      → (f' : AppendFile) × (write_all pieces f ≡ ok f')
        × (f'.disk ≡ written f ++ concat pieces)
        × (f'.tell ≡ f.tell + length (concat pieces))
  unfolding write_all
  write_all-disk [] f s =
      let (f', e, d, t) = buffer_sync-Grown f s in
      (f', e, d ∙ sym (append-nil (written f)), omega (arith, t))
  write_all-disk (bytes ∷ pieces) f s =
      let (f1, e1, (s1, w1), t1) = buffer_write-Grown bytes f s in
      let (f', e, d, t) = write_all-disk pieces f1 s1 in
      (
        f',
        ap (λ m. m >>= write_all pieces) e1 ∙ e,
        d ∙ ap (λ l. l ++ concat pieces) w1 ∙ append_assoc (written f) bytes (concat pieces),
        omega (arith, t, t1, length-append bytes (concat pieces)),
      )
