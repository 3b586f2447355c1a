-- ===== src/Tests/Segments.antt =====
-- A segment of a small file, and the theorem on segments at it.
use wdedup.Prelude.{ℕ, ◌≡◌, refl, true, List, [], ◌∷◌, ◌++◌, none, some, arith, All}
use wdedup.Errors.{ok}
use wdedup.Word.{Word, codes}
use wdedup.Serial.{put_char}
use wdedup.Memory.{alloc, new_memory}
use wdedup.Bloom.{decompose}
use wdedup.Reader.{is_whitespace}
use wdedup.Reader.Spaces.{skip_spaces}
use wdedup.Reader.Words.{split_word}
use wdedup.Config.{Config, recovery_done}
use wdedup.Plan.{ProfileSegment}
use wdedup.Merge.Rounds.{Inv}
use wdedup.Segments.{wprof, regular, missing, end_mark, profile_original, nothing_recorded}
use wdedup.Segments.Step.{FitsAlone}
use wdedup.Segments.Loop.{entries}
use wdedup.Segments.Text.{Profiled, wprof-Profiled}
use wdedup.Segments.Replay.{recorded_all, wprof-entries}
use wdedup.Rbtree.{list_tree}
use wdedup.Dedup.{new_dedup}
use wdedup.Dedup.Pour.{new_dedup-IsSorted}
use wdedup.File.Stream.{bytes_of}
use wdedup.Profiling.{fill_segment}
use wdedup.Profiling.Fill.{Fills, WordsOf, no_word, next_word}
use wdedup.Profiling.Text.{fill_segment-text}
use wdedup.Tests.Files.{some_file, two_words, first_reader, first_reader-InText}

-- The working memory has room for one word, and the second waits.
fill_segment-text_example :
    (l : List (Word × ℕ)) × WordsOf 0 (bytes_of two_words) l
    × Fills list_tree some_file 0 7 6 l
        (new_dedup list_tree 60)
        (fill_segment list_tree some_file 0 7 7 0 (new_dedup list_tree 60) first_reader)
fill_segment-text_example =
    fill_segment-text list_tree some_file 0 0 (new_dedup list_tree 60) first_reader 0
      (bytes_of two_words)
      (record { no_null = omega arith; bytes = omega arith; small = omega arith })
      first_reader-InText (new_dedup-IsSorted list_tree 60)

-- Its words.
abbrev pub its_words : List (Word × ℕ)
its_words = (codes "sea", 1) ∷ (codes "a", 5) ∷ []

pub two_words-WordsOf : WordsOf 0 (bytes_of two_words) its_words
unfolding skip_spaces split_word is_whitespace
two_words-WordsOf = next_word refl (λ e. cc) refl (next_word refl (λ e. cc) refl (no_word refl))

pub its_words-FitsAlone : All (FitsAlone 60) its_words
unfolding alloc decompose new_memory
its_words-FitsAlone = ((λ e. cc), ((λ e. cc), tt))

-- The working directory is empty and the log open.
abbrev empty_directory : Config
empty_directory = record {
  workdir = codes "w";
  ilog = none;
  olog = true;
  log = [];
  files = λ j. none;
}

empty_directory-Inv : Inv empty_directory 0 []
empty_directory-Inv = record {
  stored = tt;
  fresh = λ j h. refl;
  below = tt;
  distinct = tt;
  open_log = refl;
}

wprof-Profiled_example :
    Profiled empty_directory its_words
      (wprof list_tree some_file 60 0 8 (regular 6 (λ offset. two_words)) empty_directory)
wprof-Profiled_example =
    wprof-Profiled list_tree some_file 60 0 6 (λ offset. two_words) empty_directory its_words tt
      (record { no_null = omega arith; bytes = omega arith; small = omega arith }) two_words-WordsOf
      its_words-FitsAlone refl empty_directory-Inv

-- The segments of that run.
abbrev its_segments : List ProfileSegment
its_segments =
    record { id = 0; start = 0; stop = 0; size = 13 }
    ∷ record { id = 1; start = 1; stop = 5; size = 11 }
    ∷ []

wprof-entries_example :
    (wprof list_tree some_file 60 0 8
        (missing 2)
        (record empty_directory { ilog = some (entries its_segments ++ put_char end_mark) })
      ≡ ok (its_segments, record empty_directory { ilog = some [] }))
    × (wprof list_tree some_file 60 0 8
          (missing 2)
          (record empty_directory { ilog = some (entries its_segments) })
        ≡ profile_original list_tree some_file 60 0 8
            (missing 2)
            (recorded_all nothing_recorded its_segments)
            (recovery_done (record empty_directory { ilog = some [] })))
    × ((recorded_all nothing_recorded its_segments).result ≡ its_segments)
wprof-entries_example =
    wprof-entries list_tree some_file 60 0 8 (missing 2) its_segments empty_directory
      (refl, refl, (refl, refl, tt)) (omega arith)
