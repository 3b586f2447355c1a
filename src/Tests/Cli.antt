-- ===== src/Tests/Cli.antt =====
-- Sizes and options of the command line, and a replacement that does not end.
use wdedup.Prelude.{◌≡◌, ◌≤◌, ◌^◌, ◌*◌, ◌%◌, refl, false, true, [], ◌∷◌, ◌++◌, ◌⊎◌, arith}
use wdedup.Errors.{ok, stuck}
use wdedup.Word.{codes, to_string}
use wdedup.Cli.{
  value, logic_error, strsize, strsub, Arguments, ProgramOptions, first_of, check_options,
}
use wdedup.Cli.Size.{small_g, strsize-to_string, check_options-within}
use wdedup.Cli.Replace.{strsub-stuck}

strsize_512MB : strsize (codes "512MB") ≡ value 536870912
unfolding strsize
strsize_512MB = refl

strsize_malformed : strsize (codes "5x") ≡ logic_error (codes "Malformed memory size: \"5x\".")
unfolding strsize
strsize_malformed = refl

-- The unit takes the number beyond a `size_t`, and the working memory is small.
strsize_wraps : strsize (codes "16777216T") ≡ value 0
unfolding strsize
strsize_wraps = refl

strsize-to_string_example :
    strsize (to_string 2 ++ (codes "g" ++ codes "B")) ≡ value (2 * 2 ^ 30 % 2 ^ 64)
strsize-to_string_example =
    strsize-to_string 2 (codes "g") (codes "B") 30 (omega arith) small_g refl

abbrev given : Arguments
given = record {
  help = false;
  origfiles = codes "text" ∷ [];
  workdirs = codes "work" ∷ [];
  memory_size = codes "8k";
  sync_distance_size = codes "0";
  pinned = false;
  wprof_only = false;
  wmerge_only = false;
  no_gc = true;
}

abbrev taken : ProgramOptions
taken = record {
  origfile = codes "text";
  workdir = codes "work";
  run = true;
  workmem = 8192;
  sync_distance = 0;
  page_pinned = false;
  profile_only = false;
  merge_only = false;
  disable_gc = true;
}

check_options-given : check_options given ≡ value taken
unfolding check_options
check_options-given = refl

check_options-within_example :
    (strsize (codes "8k") ≡ value 8192)
    × (strsize (codes "0") ≡ value 0)
    × (4096 ≤ 8192)
    × ((taken.sync_distance ≡ 0) ⊎ (2 ^ 29 ≤ taken.sync_distance))
    × (first_of (codes "FILE must be specified") (codes "text" ∷ []) ≡ value (codes "text"))
    × (first_of (codes "WORKDIR must be specified") (codes "work" ∷ []) ≡ value (codes "work"))
check_options-within_example = check_options-within given taken check_options-given

strsub_once : strsub 3 (codes "a--b") (codes "--") (codes "+") ≡ ok (codes "a+b")
unfolding strsub
strsub_once = refl

strsub-stuck_example : strsub 9 (codes "xay") (codes "a") (codes "bac") ≡ stuck
strsub-stuck_example = strsub-stuck 9 (codes "a") (codes "x") (codes "y") (codes "b") (codes "c")
