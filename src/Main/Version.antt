-- ===== src/Main/Version.antt =====
-- The version at the start of the log.
use wdedup.Prelude.{
  ℕ, ◌≡◌, refl, ap, ◌∙◌, Bool, true, false, List, [], ◌∷◌, ◌++◌, arith, some, ltb, length,
  append_assoc, if◌then◌else◌, dec_lt,
}
use wdedup.Errors.{Result, ok, fault, ◌>>=◌}
use wdedup.Word.{Word, NoNull, word_eq}
use wdedup.Serial.{put_string}
use wdedup.File.{SequentialFile, open_file, reads_of, read_string}
use wdedup.File.Stream.{left_bytes}
use wdedup.File.Blocks.{opened-IsBlocked}
use wdedup.File.Cut.{read_string_whole, read_string_cut}
use wdedup.Config.{Config, log_file, log_corrupt}
use wdedup.Main.{check_version, version}

after_version : Config → Result (Word × SequentialFile) → Result Config
after_version c m = m >>= λ (found, f).
    if word_eq found version then ok (record c { ilog = some (left_bytes f) }) else log_corrupt c

check_version_log :
    (c : Config) (s : List ℕ)
    → c.ilog ≡ some s
    → check_version c ≡ after_version c (read_string (log_file c) (open_file 0 (reads_of s)))
unfolding check_version after_version
check_version_log c s i = rw i refl

string_split : (w s : List ℕ) → put_string w ++ s ≡ w ++ 0 ∷ s
unfolding put_string
string_split w s = append_assoc w (0 ∷ []) s

-- On a log that starts with a word and its terminator: if they lie in the first 4096 bytes, the run goes on
-- behind them when the word is the version of the program, and ends with the error of a corrupt log
-- when it is another; if they do not, the code writes out of bounds.
pub check_version-put_string :
    (c : Config) (w : Word) (rest : List ℕ)
    → NoNull w
    → c.ilog ≡ some (put_string w ++ rest)
    → check_version c ≡ (
        if ltb (length w) 4096
        then (if word_eq w version then ok (record c { ilog = some rest }) else log_corrupt c)
        else fault)
unfolding after_version
check_version-put_string c w rest k i =
    let s = put_string w ++ rest in
    let (r, b) = opened-IsBlocked s in
    let f = open_file 0 (reads_of s) in
    let started = check_version_log c s i in
    elim (dec_lt (length w) 4096) [
      | yes h ↦
          let (f', reads, r', b') =
            read_string_whole (log_file c) f 0 s w rest r b k (string_split w rest)
              (omega (arith, h)) in
          started
          ∙ ap (after_version c) reads
          ∙ ap (λ l. if word_eq w version then ok (record c { ilog = some l }) else log_corrupt c)
              r'.at.left_over
          ∙ ap
              (λ (t : Bool).
                if t
                then (if word_eq w version
                    then ok (record c { ilog = some rest })
                    else log_corrupt c)
                else fault)
              {x = true} {y = ltb (length w) 4096} (ground (arith, h))
      | no h ↦
          started
          ∙ ap (after_version c) (
              read_string_cut (log_file c) f 0 s w rest r b k (string_split w rest)
                (omega (arith, h)))
          ∙ ap
              (λ (t : Bool).
                if t
                then (if word_eq w version
                    then ok (record c { ilog = some rest })
                    else log_corrupt c)
                else fault)
              {x = false} {y = ltb (length w) 4096} (ground (arith, h))
    ]
