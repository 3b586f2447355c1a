-- ===== src/Main/Prints.antt =====
-- What a run from the start prints.
use wdedup.Prelude.{ℕ, ◌≤◌, ◌≡◌, ◌≢◌, true, List, [], ◌⊎◌, Option, none}
use wdedup.Errors.{enoent}
use wdedup.Word.{Word}
use wdedup.Serial.{put_string}
use wdedup.Profile.Status.{once, status}
use wdedup.Rbtree.{Rbtree}
use wdedup.Dedup.Pour.{occurrences}
use wdedup.Config.{Config}
use wdedup.Plan.Valid.{Valid}
use wdedup.Dynamic.{DpTable}
use wdedup.Main.{Workdir, no_directory, is_directory, log_missing, version}

-- A word is the first of the text that is not repeated; or it is empty, and every word is repeated.
abbrev pub IsFirstWord : Word → List (Word × ℕ) → Type 0
IsFirstWord r l =
    ((r ≡ []) × ((v : Word) (o : ℕ) → status v (occurrences l) ≢ once o))
    ⊎ ((r ≢ [])
        × (off : ℕ) × (status r (occurrences l) ≡ once off)
        × ((v : Word) (o : ℕ) → status v (occurrences l) ≡ once o → off ≤ o))

module _ (rb : Rbtree) (fresh : DpTable) where
  -- A working directory with no log in it, which is made if it is not there.
  abbrev pub IsNew : Workdir → Type 0
  IsNew w = (w ≡ no_directory enoent none) ⊎ (w ≡ is_directory (log_missing enoent))

  abbrev started : Word → (ℕ → Option (List ℕ)) → Config
  started workdir files = record {
    workdir = workdir;
    ilog = none;
    olog = true;
    log = put_string version;
    files = files;
  }
