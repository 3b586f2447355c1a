-- ===== src/Tests.antt =====
-- Runs of the model on small inputs, and each theorem at a concrete input.
mod Words
mod Sort
mod Files
mod Segments
mod Restart
mod Plans
mod Cli
mod Main
use wdedup.Prelude.{
  ◌+◌, ◌*◌, ◌<◌, ℕ, ◌≡◌, ◌≢◌, refl, List, [], ◌∷◌, none, some, arith, if◌then◌else◌, ◌==◌, true,
  false, ◌⊎◌, here,
}
use wdedup.Errors.{ok, fault}
use wdedup.File.{buffer_size}
use wdedup.Word.{Word, codes, word_lt, word_eq}
use wdedup.Profile.{Profile, single_item, repeated_item}
use wdedup.Profile.Status.{status, once, ◌⊕◌}
use wdedup.Profile.Ascending.{Ascending}
use wdedup.ProfileFile.{encode, read_table}
use wdedup.ProfileFile.Stale.{stale, AreStorable}
use wdedup.ProfileFile.RoundTrip.{read_table-encode, Delivers}
use wdedup.Tables.{merge_into}
use wdedup.Tables.Laws.{merge_into-Ascending, status-merge_into}
use wdedup.Find.{find_first}
use wdedup.Find.First.{find_first-IsFirst, IsFirst}
use wdedup.Config.{Config}
use wdedup.Plan.{ProfileSegment, Planner}
use wdedup.Plan.Valid.{PlansFor}
use wdedup.Simple.{simple_planner, next_put}
use wdedup.Simple.Plans.{simple_planner-PlansFor}
use wdedup.Merge.{wmerge}
use wdedup.Pipeline.{merge_and_find}
use wdedup.Pipeline.First.{Answers, merge_and_find-Answers}
use wdedup.Merge.Rounds.{Inv, Entry, space}
use wdedup.Merge.Stage.{wmerge-Merges, Merges}

-- Two sorted profiles: "a" at 0 and "b" repeated; "b" at 9 and "c" at 12.
abbrev pub first_half : Profile
first_half = single_item (codes "a") 0 ∷ repeated_item (codes "b") ∷ []

abbrev pub second_half : Profile
second_half = single_item (codes "b") 9 ∷ single_item (codes "c") 12 ∷ []

merge_into_halves :
    merge_into first_half second_half []
    ≡ single_item (codes "a") 0 ∷ repeated_item (codes "b") ∷ single_item (codes "c") 12 ∷ []
unfolding merge_into word_lt
merge_into_halves = refl

pub first_half-Ascending : Ascending first_half
unfolding word_lt
first_half-Ascending = ((refl, tt), (tt, tt))

pub second_half-Ascending : Ascending second_half
unfolding word_lt
second_half-Ascending = ((refl, tt), (tt, tt))

merge_into-Ascending_example : Ascending (merge_into first_half second_half [])
merge_into-Ascending_example =
    merge_into-Ascending first_half second_half first_half-Ascending second_half-Ascending

status-merge_into_example :
    status (codes "b") (merge_into first_half second_half [])
    ≡ status (codes "b") [] ⊕ (status (codes "b") first_half ⊕ status (codes "b") second_half)
status-merge_into_example = status-merge_into (codes "b") first_half second_half []

pub first_half-AreStorable : AreStorable first_half
first_half-AreStorable = omega arith

pub second_half-AreStorable : AreStorable second_half
second_half-AreStorable = omega arith

read_table-encode_example : Delivers 0 second_half (stale 0 second_half) (
    read_table
      (record { eno = 0; path = codes "w/0"; role = codes "profile-simple" })
      (encode second_half))
read_table-encode_example = read_table-encode _ second_half second_half-AreStorable

-- "c" occurs once, and first of those that do.
abbrev late_words : Profile
late_words = single_item (codes "b") 9 ∷ single_item (codes "c") 4 ∷ repeated_item (codes "d") ∷ []

find_first_late : find_first late_words ≡ ok (codes "c")
unfolding find_first word_eq
find_first_late = refl

find_first-IsFirst_example :
    (r : Word) × (off : ℕ) × (find_first late_words ≡ ok r)
    × (((r ≡ []) × ((v : Word) (o : ℕ) → status v late_words ≢ once o))
        ⊎ ((r ≢ []) × IsFirst r off late_words))
unfolding word_lt
find_first-IsFirst_example =
    find_first-IsFirst late_words (((refl, (refl, tt)), ((refl, tt), (tt, tt))))
      (((λ e. cc), ((λ e. cc), ((λ e. cc), tt))))

abbrev segment : ℕ → ℕ → ProfileSegment
segment id size = record { id = id; start = 10 * id; stop = 10 * id + 9; size = size }

-- A working directory with the two profiles, its recovery done.
abbrev pub halves : Config
halves = record {
  workdir = codes "w";
  ilog = none;
  olog = true;
  log = [];
  files = λ j.
      if j == 0
      then some (encode first_half)
      else if j == 1
      then some (encode second_half)
      else none;
}

abbrev pub three_segments : List ProfileSegment
three_segments = segment 0 20 ∷ segment 1 30 ∷ segment 2 10 ∷ []

simple_planner_three :
    simple_planner halves three_segments
    ≡ ok (record {
      plans = record { id = 3; left = 0; right = 1 } ∷ record { id = 4; left = 3; right = 2 } ∷ [];
      cursor = 0;
      root = 4;
    })
unfolding simple_planner
simple_planner_three = refl

simple_planner-PlansFor_example :
    PlansFor (next_put 0 three_segments) three_segments (simple_planner halves three_segments)
simple_planner-PlansFor_example = simple_planner-PlansFor halves three_segments (λ e. cc)

abbrev one_merge : Planner
one_merge = record { plans = record { id = 2; left = 0; right = 1 } ∷ []; cursor = 0; root = 2 }

abbrev two_entries : List Entry
two_entries = (0, first_half) ∷ (1, second_half) ∷ []

halves-Inv : Inv halves 2 two_entries
halves-Inv = record {
  stored = (
    record {
      file = refl;
      storable = first_half-AreStorable;
      ascending = first_half-Ascending;
      worded = ((λ e. cc), ((λ e. cc), tt));
    },
    (
      record {
        file = refl;
        storable = second_half-AreStorable;
        ascending = second_half-Ascending;
        worded = ((λ e. cc), ((λ e. cc), tt));
      },
      tt,
    ),
  );
  fresh = λ j h. ground arith;
  below = omega arith;
  distinct = (((λ e. omega arith), tt), (tt, tt));
  open_log = refl;
}

wmerge-Merges_example : Merges two_entries 2 (wmerge one_merge false halves)
wmerge-Merges_example =
    wmerge-Merges one_merge false halves 2 two_entries refl refl halves-Inv
      (1 ∷ [], [], 2 ∷ [], here, here, here, refl, refl)

-- The words of the two halves: "a" is the first of those that occur once.
merge_and_find-Answers_example :
    ((r : Word) × (merge_and_find one_merge false halves ≡ ok r) × Answers r two_entries)
    ⊎ ((merge_and_find one_merge false halves ≡ fault) × (buffer_size < space two_entries))
merge_and_find-Answers_example =
    merge_and_find-Answers one_merge false halves 2 two_entries refl refl halves-Inv
      (1 ∷ [], [], 2 ∷ [], here, here, here, refl, refl)
