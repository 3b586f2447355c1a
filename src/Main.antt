-- ===== src/Main.antt =====
-- src/main.cpp: the start of a run in its working directory, the stages in their order, and what the program
-- prints and returns. The memory is mapped, and `fuel` bounds the rounds of the profiling stage.
pub mod Prints
pub mod Version
use wdedup.Prelude.{
  ℕ, ◌-◌, ◌^◌, ◌%◌, Bool, true, false, List, [], ◌∷◌, ◌++◌, Option, none, some, ◌==◌, if◌then◌else◌,
}
use wdedup.Errors.{Result, ok, err, fault, stuck, Error, eio, enoent, ◌>>=◌}
use wdedup.Word.{Word, codes, word_eq}
use wdedup.Serial.{put_string}
use wdedup.File.{open_file, reads_of, read_string}
use wdedup.File.Stream.{left_bytes}
use wdedup.Config.{Config, log_file, log_corrupt, recovery_done, write_log}
use wdedup.Plan.{ProfileSegment, Planner}
use wdedup.Rbtree.{Rbtree}
use wdedup.Merge.{wmerge}
use wdedup.Segments.{OriginalFile, wprof}
use wdedup.Dynamic.{DpTable, dp_planner}
use wdedup.Cli.{ProgramOptions, CommandLine}
use wdedup.Pipeline.{find_stage}

-- What `stat` says of the log, with the content of a regular file.
pub data LogFile : Type 0 where
  log_missing : ℕ → LogFile
  log_special : LogFile
  log_regular : List ℕ → LogFile

-- What `stat` says of the working directory: its errno with what `mkdir` then does, or the kind.
pub data Workdir : Type 0 where
  no_directory : ℕ → Option ℕ → Workdir
  not_directory : Workdir
  is_directory : LogFile → Workdir

abbrev workdir_error {ℓ} : {A : Type ℓ} → ℕ → Config → Result A
workdir_error eno c = err (record { eno = eno; path = c.workdir; role = codes "workdir" })

-- The start in the working directory: the log is opened to be read if it is there, and otherwise to be written.
unfoldable pub open_workdir : Workdir → Config → Result Config
open_workdir (no_directory eno failed) c =
    if eno == enoent
    then (elim failed [ none ↦ ok (record c { olog = true }) | some e ↦ workdir_error e c ])
    else workdir_error eno c
open_workdir not_directory c = workdir_error eio c
open_workdir (is_directory (log_missing eno)) c =
    if eno == enoent then ok (record c { olog = true }) else log_corrupt c
open_workdir (is_directory log_special) c = log_corrupt c
open_workdir (is_directory (log_regular bytes)) c = ok (record c { ilog = some bytes; log = bytes })

abbrev pub version : Word
version = codes "20190612.0001"

-- The version is read off a log that is there, or written. What is left of the log is read on from there.
unfoldable pub check_version : Config → Result Config
check_version c = elim c.ilog [
  | some s ↦ do
    (found, f) ← read_string (log_file c) (open_file 0 (reads_of s))
    if word_eq found version then ok (record c { ilog = some (left_bytes f) }) else log_corrupt c
  | none ↦ write_log (put_string version) (recovery_done c)
]

-- The name of the original file in errors.
abbrev pub original_file : Word → Error
original_file path = record { eno = 0; path = path; role = codes "original-file" }

-- What a run prints and returns.
pub record Outcome : Type 0 where
  pub status : ℕ
  pub output : Word
  pub errors : Word

-- The end of `main`, with its `catch`; it has none behind undefined behaviour.
unfoldable pub report_outcome : (ℕ → Word) → Result Word → Option Outcome
report_outcome strerror (ok word) = some (record {
  status = 0;
  output = if word_eq word [] then [] else word ++ b'\n' ∷ [];
  errors = [];
})
report_outcome strerror (err e) = some (record {
  status = (2 ^ 32 - e.eno) % 2 ^ 32;
  output = [];
  errors =
      codes "Error: "
      ++ (e.path
          ++ ((if word_eq e.role [] then [] else codes " (" ++ (e.role ++ codes "): "))
              ++ (strerror e.eno ++ b'\n' ∷ [])));
})
report_outcome strerror fault = none
report_outcome strerror stuck = none

module _ (rb : Rbtree) (fresh : DpTable) (fuel : ℕ) where
  -- The stages.
  unfoldable pub stages : ProgramOptions → OriginalFile → Config → Result Word
  unfolding wprof dp_planner wmerge find_stage
  stages o file c = do
    (profiles, c1) ← wprof rb (original_file o.origfile) o.workmem o.sync_distance fuel file c
    if o.profile_only then ok [] else (do
      planner ← dp_planner fresh c1 profiles
      (root, c2) ← wmerge planner o.disable_gc c1
      if o.merge_only then ok [] else find_stage root c2)

  -- The body of the `try`, with the files of the working directory.
  unfoldable pub run_stages :
      ProgramOptions → Workdir → (ℕ → Option (List ℕ)) → OriginalFile → Result Word
  unfolding open_workdir check_version stages
  run_stages o directory files file = do
    c1 ←
        open_workdir directory
          (record { workdir = o.workdir; ilog = none; olog = false; log = []; files = files })
    c2 ← check_version c1
    stages o file c2

  -- `main`, behind `argparse`.
  unfoldable pub main :
      (ℕ → Word) → CommandLine → Workdir → (ℕ → Option (List ℕ)) → OriginalFile → Option Outcome
  unfolding run_stages report_outcome
  main strerror line directory files file =
      if line.retcode == 0
      then (elim line.options [
        | none ↦ some (record { status = 0; output = []; errors = line.printed })
        | some o ↦ report_outcome strerror (run_stages o directory files file)
      ])
      else some (record { status = line.retcode; output = []; errors = line.printed })
