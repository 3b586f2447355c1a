-- ===== src/Append/Log.antt =====
-- What reaches an append-only file that is a log.
use wdedup.Prelude.{
  ℕ, ◌+◌, ◌≡◌, refl, sym, ap, ◌∙◌, List, [], ◌∷◌, ◌++◌, none, length, take, append_assoc,
  append-nil,
}
use wdedup.Errors.{Result, ok, err, Error}
use wdedup.Append.{AppendFile, WriteResult, took, refused, base_write, log_write, log_sync}
use wdedup.Append.Buffer.{concat}

module _ (file : Error) where
  -- The log: several writes without a `sync`.
  unfoldable pub log_all : List (List ℕ) → AppendFile → AppendFile
  log_all [] f = f
  log_all (bytes ∷ pieces) f = log_all pieces (log_write file bytes f)

  log_all-written :
      (pieces : List (List ℕ)) (f : AppendFile)
      → log_all pieces f ≡ record f { writebuf = f.writebuf ++ concat pieces }
  unfolding log_all log_write
  log_all-written [] f = ap (λ l. record f { writebuf = l }) (sym (append-nil f.writebuf))
  log_all-written (bytes ∷ pieces) f =
      log_all-written pieces (log_write file bytes f)
      ∙ ap (λ l. record f { writebuf = l }) (append_assoc f.writebuf bytes (concat pieces))

  -- What a `sync` of these bytes gives, when the kernel gives `r` to the one write of it and has
  -- `writes` to give to later ones.
  abbrev pub synced : WriteResult → List WriteResult → List ℕ → AppendFile → Result AppendFile
  synced (took n) writes bytes f = ok (record f {
    writes = writes;
    writebuf = [];
    disk = f.disk ++ take n bytes;
    tell = f.tell + length bytes;
  })
  synced (refused eno) writes bytes f = err (record file { eno = eno })

  -- The log: whatever was written, nothing of it is on the disk before a `sync` and no write of the
  -- kernel was made. The `sync` then makes one write of the kernel for all of it: as many bytes as
  -- that write takes reach the disk, so all of them if it takes all, and the results of the writes
  -- to come are left; `tell` moves by all the bytes, whether they were taken or not. If the kernel
  -- refuses that write, the `sync` reports its errno.
  pub log_sync-disk :
      (pieces : List (List ℕ)) (f : AppendFile) (r : WriteResult) (writes : List WriteResult)
      → f.writebuf ≡ []
      → f.writes ≡ r ∷ writes
      → ((log_all pieces f).disk ≡ f.disk)
        × ((log_all pieces f).writes ≡ f.writes)
        × (log_sync file none (log_all pieces f) ≡ synced r writes (concat pieces) f)
  unfolding log_sync base_write
  log_sync-disk pieces f r writes b w =
      let e : log_all pieces f ≡ record f { writebuf = concat pieces } =
        log_all-written pieces f ∙ ap (λ l. record f { writebuf = l ++ concat pieces }) b in
      (
        ap (λ (g : AppendFile). g.disk) e,
        ap (λ (g : AppendFile). g.writes) e,
        ap (log_sync file none) e ∙ written r w,
      )
    where
      written :
          (r : WriteResult)
          → f.writes ≡ r ∷ writes
          → log_sync file none (record f { writebuf = concat pieces })
            ≡ synced r writes (concat pieces) f
      written (took n) w = rw w refl
      written (refused eno) w = rw w refl
