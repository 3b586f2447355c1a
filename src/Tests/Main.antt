-- ===== src/Tests/Main.antt =====
-- A run of the whole program on a small file.
use wdedup.Prelude.{
  ◌≡◌, refl, true, false, [], ◌∷◌, ◌++◌, Option, ltb, length, none, some, arith, if◌then◌else◌,
}
use wdedup.Errors.{ok, fault}
use wdedup.Word.{Word, codes, word_eq}
use wdedup.Rbtree.{list_tree}
use wdedup.Dynamic.{DpTable}
use wdedup.Cli.{ProgramOptions}
use wdedup.Segments.{regular}
use wdedup.Main.{main, no_directory, Outcome, version, check_version}
use wdedup.Config.{Config, log_corrupt}
use wdedup.Serial.{put_string}
use wdedup.Main.Version.{check_version-put_string}
use wdedup.Tests.Files.{two_words}

abbrev all_stages : ProgramOptions
all_stages = record {
  origfile = codes "text";
  workdir = codes "w";
  run = true;
  workmem = 60;
  sync_distance = 0;
  page_pinned = false;
  profile_only = false;
  merge_only = false;
  disable_gc = false;
}

abbrev blank : DpTable
blank = λ i j. record { length = 0; cost = 0; separation = 0; id = 0 }

abbrev outcome : Option Outcome
outcome =
    main list_tree blank 8 (λ eno. codes "error")
      (record { retcode = 0; options = some all_stages; printed = [] }) (no_directory 2 none)
      (λ j. none) (regular 6 (λ offset. two_words))

-- A log with the version and an entry behind it.
abbrev with_log : Config
with_log = record {
  workdir = codes "w";
  ilog = some (put_string version ++ b's' ∷ []);
  olog = false;
  log = put_string version ++ b's' ∷ [];
  files = λ j. none;
}

check_version-put_string_example : check_version with_log ≡ (
    if ltb (length version) 4096
    then (if word_eq version version
        then ok (record with_log { ilog = some (b's' ∷ []) })
        else log_corrupt with_log)
    else fault)
check_version-put_string_example =
    check_version-put_string with_log version (b's' ∷ []) (omega arith) refl
