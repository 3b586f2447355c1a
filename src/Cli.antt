-- ===== src/Cli.antt =====
-- include/impl/wcli.hpp, src/wcli.cpp: the command line. What boost makes of the arguments is a parameter.
pub mod Size
pub mod Replace
use wdedup.Prelude.{
  ℕ, zero, suc, ◌+◌, ◌-◌, ◌*◌, ◌^◌, ◌%◌, ◌≤◌, Bool, true, false, not, ◌&&◌, ◌||◌, List, [], ◌∷◌,
  ◌++◌, Option, none, some, ltb, leb, ◌==◌, if◌then◌else◌, length,
}
use wdedup.Errors.{Result, ok, stuck, ◌>>=◌}
use wdedup.Word.{Word, codes}

-- A call gives a value, or throws a `std::logic_error` with a text.
pub data Checked {ℓ} (A : Type ℓ) : Type ℓ where
  value : A → Checked A
  logic_error : Word → Checked A

infixl 5 ◌and_then◌
abbrev pub ◌and_then◌ {ℓ κ} :
    {A : Type ℓ} {B : Type κ} (call : Checked A) (next : A → Checked B) → Checked B
logic_error text and_then next = logic_error text
value a and_then next = next a

-- What is left behind `l` at the start of a string.
unfoldable pub behind : Word → Word → Option Word
behind [] s = some s
behind (c ∷ l) [] = none
behind (c ∷ l) (d ∷ s) = if c == d then behind l s else none

-- What is behind an occurrence at this character, or else the one that is found later.
abbrev pub found_at : ℕ → Option Word → Option (Word × Word) → Option (Word × Word)
found_at c (some rest) later = some ([], rest)
found_at c none none = none
found_at c none (some (a, b)) = some (c ∷ a, b)

-- `find` from the start: what is before the first `l`, and what is behind it.
unfoldable pub find_sub : Word → Word → Option (Word × Word)
unfolding behind
find_sub l [] = elim (behind l []) [ some rest ↦ some ([], rest) | none ↦ none ]
find_sub l (c ∷ s) = found_at c (behind l (c ∷ s)) (find_sub l s)

-- `strsub`. Every round starts from the start again: the position that it moves on is not used.
unfoldable pub strsub : ℕ → Word → Word → Word → Result Word
unfolding find_sub
strsub zero str l r = stuck
strsub (suc fuel) str l r = elim (find_sub l str) [
  | none ↦ ok str
  | some (before, rest) ↦ strsub fuel (before ++ (r ++ rest)) l r
]

-- The digits at the start of a string, and what is behind them.
abbrev pub is_digit : ℕ → Bool
is_digit c = leb b'0' c && leb c b'9'

unfoldable pub span_digits : Word → Word × Word
span_digits [] = ([], [])
span_digits (c ∷ s) =
    let (digits, rest) = span_digits s in if is_digit c then (c ∷ digits, rest) else ([], c ∷ s)

-- The value of digits, as `std::stoul` reads them.
unfoldable pub digits_value : ℕ → Word → ℕ
digits_value n [] = n
digits_value n (c ∷ s) = digits_value (n * 10 + (c - b'0')) s

-- How far the unit shifts, if the character is one.
unfoldable pub unit_shift : ℕ → Option ℕ
unit_shift c =
    if (c == b'k') || (c == b'K')
    then some 10
    else if (c == b'm') || (c == b'M')
    then some 20
    else if (c == b'g') || (c == b'G')
    then some 30
    else if (c == b't') || (c == b'T')
    then some 40
    else none

-- The shift behind the digits and what is left.
unfoldable pub take_unit : Word → ℕ × Word
unfolding unit_shift
take_unit [] = (0, [])
take_unit (c ∷ s) = elim (unit_shift c) [ some k ↦ (k, s) | none ↦ (0, c ∷ s) ]

-- Nothing or the letter for bytes is left.
abbrev pub only_b : Word → Bool
only_b [] = true
only_b (c ∷ []) = (c == b'b') || (c == b'B')
only_b (c ∷ d ∷ s) = false

-- `std::stoul`, which throws a `std::out_of_range` with its name as the text.
unfoldable pub stoul : Word → Checked ℕ
unfolding digits_value
stoul digits =
    if ltb (digits_value 0 digits) (2 ^ 64)
    then value (digits_value 0 digits)
    else logic_error (codes "stoul")

-- `strsize`.
unfoldable pub malformed : Word → Checked ℕ
malformed str = logic_error (codes "Malformed memory size: \"" ++ (str ++ codes "\"."))

unfoldable pub strsize : Word → Checked ℕ
unfolding span_digits stoul take_unit malformed
strsize str =
    let (digits, rest) = span_digits str in
    let (shift, rest') = take_unit rest in
    if not (length digits == 0) && only_b rest'
    then (stoul digits and_then λ v. value (v * 2 ^ shift % 2 ^ 64))
    else malformed str

abbrev pub min_workmem : Word
min_workmem = codes "4096B"

abbrev pub min_sync_distance : Word
min_sync_distance = codes "512MB"

-- `ProgramOptions`.
pub record ProgramOptions : Type 0 where
  pub origfile : Word
  pub workdir : Word
  pub run : Bool
  pub workmem : ℕ
  pub sync_distance : ℕ
  pub page_pinned : Bool
  pub profile_only : Bool
  pub merge_only : Bool
  pub disable_gc : Bool

-- What boost found: the values with their defaults, or the text of its error.
pub record Arguments : Type 0 where
  pub help : Bool
  pub origfiles : List Word
  pub workdirs : List Word
  pub memory_size : Word
  pub sync_distance_size : Word
  pub pinned : Bool
  pub wprof_only : Bool
  pub wmerge_only : Bool
  pub no_gc : Bool

-- The first of positional arguments.
abbrev pub first_of : Word → List Word → Checked Word
first_of text [] = logic_error text
first_of text (w ∷ l) = value w

-- The size of the working memory, and the distance.
unfoldable pub memory_option : Word → Checked ℕ
unfolding strsize
memory_option str = strsize str and_then λ workmem. strsize min_workmem and_then λ least.
    if ltb workmem least
    then logic_error (codes "At least 4096B workmem is required.")
    else value workmem

unfoldable pub distance_option : Word → Checked ℕ
unfolding strsize
distance_option str = strsize str and_then λ distance. strsize min_sync_distance and_then λ least.
    if not (distance == 0) && ltb distance least
    then logic_error (codes "Synchronization distance (if enabled) is no less than 512MB.")
    else value distance

-- The checks of the options.
unfoldable pub check_options : Arguments → Checked ProgramOptions
unfolding memory_option distance_option
check_options a = first_of (codes "FILE must be specified") a.origfiles and_then λ origfile.
    first_of (codes "WORKDIR must be specified") a.workdirs and_then λ workdir.
    memory_option a.memory_size and_then λ workmem.
    distance_option a.sync_distance_size and_then λ sync_distance. value (record {
      origfile = origfile;
      workdir = workdir;
      run = true;
      workmem = workmem;
      sync_distance = sync_distance;
      page_pinned = a.pinned;
      profile_only = a.wprof_only;
      merge_only = a.wmerge_only;
      disable_gc = a.no_gc;
    })

-- What the command line comes to: the exit code, the options if the program is to run on, and what was printed.
pub record CommandLine : Type 0 where
  pub retcode : ℕ
  pub options : Option ProgramOptions
  pub printed : Word

-- `getHelpMessage`, with the usage as boost formats it.
unfoldable pub help_message : ℕ → Word → Word → Result Word
unfolding strsub
help_message fuel argv0 usage = do
  let newline = b'\n' ∷ []
  let text =
      codes "Usage: "
      ++ (argv0
          ++ (codes " [--flags] FILE WORKDIR"
              ++ (newline
                  ++ (codes
                        "Performs word deduplication for large files in a I/O-based and recoverable way."
                      ++ (newline ++ (usage ++ newline))))))
  named ← strsub fuel text (codes "--origfile arg") (codes "FILE          ")
  strsub fuel named (codes "--workdir arg") (codes "WORKDIR      ")

-- `argparse`, from what boost found or threw. The code -1 is that of a 32-bit `int`.
unfoldable pub argparse : ℕ → Word → Word → Checked Arguments → Result CommandLine
unfolding help_message check_options
argparse fuel argv0 usage (logic_error text) = do
  message ← help_message fuel argv0 usage
  ok (record {
    retcode = 2 ^ 32 - 1;
    options = none;
    printed = codes "Error: " ++ (text ++ (b'\n' ∷ message));
  })
argparse fuel argv0 usage (value a) =
    let refuse = λ (text : Word). (do
      message ← help_message fuel argv0 usage
      ok (record {
        retcode = 2 ^ 32 - 1;
        options = none;
        printed = codes "Error: " ++ (text ++ (b'\n' ∷ message));
      })) in
    elim a.help [
      | true ↦ do
        message ← help_message fuel argv0 usage
        ok (record { retcode = 0; options = none; printed = message })
      | false ↦ elim (check_options a) [
        | value options ↦ ok (record { retcode = 0; options = some options; printed = [] })
        | logic_error text ↦ refuse text
      ]
    ]
