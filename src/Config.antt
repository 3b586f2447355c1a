-- ===== src/Config.antt =====
-- include/wconfig.hpp and `MainConfig` in src/main.cpp: the working directory as the stages see it.
use wdedup.Prelude.{
  ℕ, Bool, true, false, not, ◌&&◌, List, [], ◌++◌, Option, none, some, ◌==◌, if◌then◌else◌, length,
}
use wdedup.Errors.{Result, ok, err, fault, Error, eio, enoent}
use wdedup.Word.{Word, codes, to_string}
use wdedup.Profile.{Profile}
use wdedup.ProfileFile.{encode, read_table}

-- The state: `pilog` with what is left to read, whether `polog` is open, the synchronised content of
-- the log file, and the files of the working directory by the number that names them.
pub record Config : Type 0 where
  pub workdir : Word
  pub ilog : Option (List ℕ)
  pub olog : Bool
  pub log : List ℕ
  pub files : ℕ → Option (List ℕ)

-- `logPath`, and the path of a profile.
abbrev pub log_path : Config → Word
log_path c = c.workdir ++ codes "/log"

abbrev pub profile_path : Config → ℕ → Word
profile_path c id = c.workdir ++ codes "/" ++ to_string id

-- The file as an error of the log or of a profile names it.
abbrev pub log_file : Config → Error
log_file c = record { eno = eio; path = log_path c; role = codes "log" }

abbrev pub profile_file : Config → ℕ → Error
profile_file c id = record { eno = eio; path = profile_path c id; role = codes "profile-simple" }

-- `hasRecoveryDone`.
unfoldable pub has_recovery_done : Config → Bool
has_recovery_done c = elim c.ilog [ none ↦ true | some s ↦ false ]

-- `recoveryDone`: the input is closed and the output opened, unless that was done before.
unfoldable pub recovery_done : Config → Config
unfolding has_recovery_done
recovery_done c =
    if not (has_recovery_done c) && not c.olog then record c { ilog = none; olog = true } else c

-- `logCorrupt`.
unfoldable pub log_corrupt {ℓ} : {A : Type ℓ} → Config → Result A
log_corrupt c = err (log_file c)

-- `olog() << … << sync`: the bytes reach the file as one piece. `olog` asserts that it is open.
unfoldable pub write_log : List ℕ → Config → Result Config
write_log bytes c = if c.olog then ok (record c { log = c.log ++ bytes }) else fault

-- `openInput`, read to its end.
unfoldable pub open_input : ℕ → Config → Result Profile
open_input id c = elim (c.files id) [
  | none ↦ err (record (profile_file c id) { eno = enoent })
  | some bytes ↦ read_table (profile_file c id) bytes
]

-- What a file holds, or nothing if it is not there yet.
abbrev pub content : Option (List ℕ) → List ℕ
content none = []
content (some bytes) = bytes

-- A file is given new content, or is removed.
unfoldable pub set_file : ℕ → Option (List ℕ) → Config → Config
set_file id bytes c = record c { files = λ j. if j == id then bytes else c.files j }

-- `openOutput`, a `push` of every item and `close`: the file is opened to append, and the size is
-- that of what was pushed.
unfoldable pub put_output : ℕ → Profile → Config → ℕ × Config
unfolding set_file
put_output id p c = (length (encode p), set_file id (some (content (c.files id) ++ encode p)) c)

-- `remove`.
unfoldable pub remove : ℕ → Config → Config
unfolding set_file
remove id c = set_file id none c
