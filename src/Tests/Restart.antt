-- ===== src/Tests/Restart.antt =====
-- The merge stage is stopped behind its first round and started again.
use wdedup.Prelude.{
  ◌≡◌, ◌≢◌, ◌≤◌, ◌+◌, ◌++◌, ℕ, refl, List, [], ◌∷◌, none, some, arith, if◌then◌else◌, ◌==◌, true,
  false, here, inl, inr, ℕ_discrete, ap, length,
}
use wdedup.Errors.{ok, ◌>>=◌}
use wdedup.Word.{codes, word_lt}
use wdedup.Profile.{Profile, single_item}
use wdedup.Profile.Ascending.{Ascending}
use wdedup.Serial.{put_string, put_char, put_size}
use wdedup.File.{buffer_size}
use wdedup.ProfileFile.{encode, item_bytes}
use wdedup.ProfileFile.Size.{table_size}
use wdedup.ProfileFile.Stale.{AreStorable, stale}
use wdedup.Config.{Config, open_input, remove, set_file}
use wdedup.Plan.{MergePlan, Planner}
use wdedup.Merge.{wmerge, merge_entry, merge_one, collect}
use wdedup.Merge.Rounds.{Inv, Entry, after_round, merged, Stored, open_input-Stored, merge_one_read}
use wdedup.Merge.Stage.{Merges}
use wdedup.Merge.Run.{run_rounds}
use wdedup.Merge.Resume.{IsKept, IsAsLeft}
use wdedup.Merge.Partial.{merge_one-put_output}
use wdedup.Merge.Restart.{wmerge-run_rounds}
use wdedup.Tests.{
  first_half, second_half, first_half-Ascending, second_half-Ascending, first_half-AreStorable,
  second_half-AreStorable,
}

abbrev last_part : Profile
last_part = single_item (codes "c") 30 ∷ []

last_part-Ascending : Ascending last_part
unfolding word_lt
last_part-Ascending = (tt, tt)

last_part-AreStorable : AreStorable last_part
last_part-AreStorable = omega arith

-- A working directory with three profiles, its recovery done.
abbrev parts : Config
parts = record {
  workdir = codes "w";
  ilog = none;
  olog = true;
  log = b'p' ∷ [];
  files = λ j.
      if j == 0
      then some (encode first_half)
      else if j == 1
      then some (encode second_half)
      else if j == 2
      then some (encode last_part)
      else none;
}

abbrev three_entries : List Entry
three_entries = (0, first_half) ∷ (1, second_half) ∷ (2, last_part) ∷ []

parts-Inv : Inv parts 3 three_entries
parts-Inv = record {
  stored = (
    record {
      file = refl;
      storable = first_half-AreStorable;
      ascending = first_half-Ascending;
      worded = ((λ e. cc), ((λ e. cc), tt));
    },
    (
      record {
        file = refl;
        storable = second_half-AreStorable;
        ascending = second_half-Ascending;
        worded = ((λ e. cc), ((λ e. cc), tt));
      },
      (
        record {
          file = refl;
          storable = last_part-AreStorable;
          ascending = last_part-Ascending;
          worded = ((λ e. cc), tt);
        },
        tt,
      ),
    ),
  );
  fresh = λ j h. ground arith;
  below = omega arith;
  distinct = (((λ e. omega arith), ((λ e. omega arith), tt)), (((λ e. omega arith), tt), (tt, tt)));
  open_log = refl;
}

abbrev first_plan : MergePlan
first_plan = record { id = 3; left = 0; right = 1 }

abbrev second_plan : MergePlan
second_plan = record { id = 4; left = 3; right = 2 }

abbrev two_merges : Planner
two_merges = record { plans = first_plan ∷ second_plan ∷ []; cursor = 0; root = 4 }

-- The state behind the first round.
abbrev stopped : Config
stopped = after_round false first_plan (merged first_half second_half) parts

run_rounds_first : run_rounds false (first_plan ∷ []) parts ≡ ok stopped
unfolding run_rounds encode item_bytes put_string put_char put_size
run_rounds_first =
    ap (λ m. m >>= run_rounds false [])
      (merge_one_read false first_plan parts first_half second_half
        (small_input 0 first_half parts-Inv.stored.0 (omega arith))
        (small_input 1 second_half parts-Inv.stored.1.0 (omega arith)) refl refl)
  where
    small_input :
        (j : ℕ) (p : Profile)
        → Stored parts (j, p)
        → table_size p ≤ buffer_size
        → open_input j parts ≡ ok (stale 0 p)
    small_input j p s h = elim (open_input-Stored parts (j, p) s) [
      | inl e ↦ e
      | inr (e, large) ↦ absurd (omega arith)
    ]

abbrev logged : List ℕ
logged = merge_entry first_plan (length (encode (merged first_half second_half)))

-- The first profile was not removed yet, and the output of the second round was opened.
abbrev again : Config
again = record {
  workdir = codes "w";
  ilog = some logged;
  olog = false;
  log = stopped.log;
  files =
      λ j. if j == 0 then some (encode first_half) else if j == 4 then some [] else stopped.files j;
}

as_left : (j : ℕ) → IsKept (first_plan ∷ []) j → IsAsLeft stopped again j
unfolding collect remove set_file
as_left j h = elim (ℕ_discrete j 4) [
  | yes e ↦ inr (ground (arith, e), ground (arith, e))
  | no n ↦ inl (ground (arith, n))
]

wmerge-run_rounds_example : Merges three_entries 4 (wmerge two_merges true again)
unfolding collect remove set_file
wmerge-run_rounds_example =
    wmerge-run_rounds two_merges false true parts stopped again 3 three_entries (first_plan ∷ [])
      (second_plan ∷ []) logged [] refl refl (omega arith) parts-Inv
      (
        1 ∷ 2 ∷ [],
        2 ∷ [],
        3 ∷ 2 ∷ [],
        here,
        here,
        here,
        refl,
        (2 ∷ [], [], 4 ∷ [], here, here, here, refl, refl),
      )
      run_rounds_first refl as_left (inl refl)

-- The output of the first round holds a byte that a stopped run left.
abbrev half_written : Config
half_written = record parts { files = λ j. if j == 3 then some (b'a' ∷ []) else parts.files j }

half_written-Stored : Stored half_written (0, first_half) × Stored half_written (1, second_half)
half_written-Stored = (
  record {
    file = refl;
    storable = first_half-AreStorable;
    ascending = first_half-Ascending;
    worded = ((λ e. cc), ((λ e. cc), tt));
  },
  record {
    file = refl;
    storable = second_half-AreStorable;
    ascending = second_half-Ascending;
    worded = ((λ e. cc), ((λ e. cc), tt));
  },
)

merge_one-put_output_example :
    (c : Config) × (merge_one false first_plan half_written ≡ ok c)
    × (c.files 3 ≡ some (b'a' ∷ [] ++ encode (merged first_half second_half)))
    × (c.files 3 ≢ some (encode (merged first_half second_half)))
unfolding encode item_bytes put_string put_char put_size
merge_one-put_output_example =
    merge_one-put_output false first_plan half_written first_half second_half (b'a' ∷ [])
      half_written-Stored.0 half_written-Stored.1 small (omega arith) (omega arith) refl refl
      (omega arith)
  where
    small : table_size first_half + table_size second_half ≤ buffer_size
    small = omega arith
