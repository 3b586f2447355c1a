-- ===== src/Cli/Size.antt =====
-- `strsize` reads the sizes that the command line documents, and the checks of the options.
use wdedup.Prelude.{
  ℕ, zero, suc, ◌+◌, ◌-◌, ◌*◌, ◌/◌, ◌%◌, ◌^◌, ◌<◌, ◌≤◌, ◌≡◌, refl, sym, ap, ap₂, ◌∙◌, subst, Bool,
  true, false, not, ◌&&◌, [], ◌∷◌, ◌++◌, ◌⊎◌, inl, inr, Option, none, some, arith, ltb, ◌==◌,
  if◌then◌else◌, length, length-append, All, All-append, dec_lt,
}
use native.Mathlib.Nat.{pow-suc}
use wdedup.Word.{Word, codes, decimal, to_string}
use wdedup.Cli.{
  Checked, value, logic_error, ◌and_then◌, is_digit, span_digits, digits_value, unit_shift,
  take_unit, only_b, stoul, malformed, strsize, ProgramOptions, Arguments, memory_option,
  distance_option, first_of, min_workmem, min_sync_distance, check_options,
}

AreDigits : Word → Type 0
AreDigits = All (λ c. is_digit c ≡ true)

decimal-AreDigits : (fuel n : ℕ) → AreDigits (decimal fuel n)
unfolding decimal AreDigits
decimal-AreDigits zero n = tt
decimal-AreDigits (suc fuel) n = elim (dec_lt n 10) [
  | yes h ↦ subst AreDigits {x = (b'0' + n) ∷ []} (ground (arith, h)) (ground (arith, h), tt)
  | no h ↦ subst AreDigits {x = decimal fuel (n / 10) ++ (b'0' + n % 10) ∷ []} (ground (arith, h)) (
      All-append (λ c. is_digit c ≡ true) (decimal fuel (n / 10)) _
        (decimal-AreDigits fuel (n / 10)) (ground arith, tt))
]

digits_value-append :
    (a : Word) (m c : ℕ) → digits_value m (a ++ c ∷ []) ≡ digits_value m a * 10 + (c - b'0')
unfolding digits_value
digits_value-append [] m c = refl
digits_value-append (d ∷ a) m c = digits_value-append a (m * 10 + (d - b'0')) c

-- The digits of a number have its value.
digits_value-decimal : (fuel n : ℕ) → n < 10 ^ fuel → digits_value 0 (decimal fuel n) ≡ n
unfolding digits_value decimal
digits_value-decimal zero n h = omega arith
digits_value-decimal (suc fuel) n h = elim (dec_lt n 10) [
  | yes l ↦
      ap (digits_value 0) {x = decimal (suc fuel) n} {y = (b'0' + n) ∷ []} (ground (arith, l))
      ∙ omega arith
  | no l ↦
      ap (digits_value 0) {x = decimal (suc fuel) n}
        {y = decimal fuel (n / 10) ++ (b'0' + n % 10) ∷ []} (ground (arith, l))
      ∙ digits_value-append (decimal fuel (n / 10)) 0 (b'0' + n % 10)
      ∙ omega (arith, digits_value-decimal fuel (n / 10) (omega (arith, h, pow-suc 10 fuel)))
]

-- What is behind the digits does not start with one.
StopsDigits : Word → Type 0
StopsDigits [] = Unit {0}
StopsDigits (c ∷ s) = is_digit c ≡ false

span_digits_lem : (a s : Word) → AreDigits a → StopsDigits s → span_digits (a ++ s) ≡ (a, s)
unfolding span_digits AreDigits StopsDigits
span_digits_lem [] [] h k = refl
span_digits_lem [] (c ∷ s) h k =
    ap (λ b. if b then (c ∷ (span_digits s).0, (span_digits s).1) else ([], c ∷ s)) k
span_digits_lem (c ∷ a) s (h, hs) k =
    ap
      (λ b.
        if b then (c ∷ (span_digits (a ++ s)).0, (span_digits (a ++ s)).1) else ([], c ∷ (a ++ s)))
      h
    ∙ ap (λ (x : Word × Word). (c ∷ x.0, x.1)) (span_digits_lem a s hs k)

-- A unit and the exponent of 2 that it stands for: none, KiB, MiB, GiB or TiB.
pub data IsUnit : Word → ℕ → Type 0 where
  no_unit : IsUnit [] 0
  small_k : IsUnit (codes "k") 10
  large_k : IsUnit (codes "K") 10
  small_m : IsUnit (codes "m") 20
  large_m : IsUnit (codes "M") 20
  small_g : IsUnit (codes "g") 30
  large_g : IsUnit (codes "G") 30
  small_t : IsUnit (codes "t") 40
  large_t : IsUnit (codes "T") 40

-- How the code shifts for it.
abbrev Shifts : Word → ℕ → Type 0
Shifts u k = ((u ≡ []) × (k ≡ 0)) ⊎ ((c : ℕ) × (u ≡ c ∷ []) × (unit_shift c ≡ some k))

IsUnit-Shifts : (u : Word) (k : ℕ) → IsUnit u k → Shifts u k
unfolding unit_shift
IsUnit-Shifts _ _ no_unit = inl (refl, refl)
IsUnit-Shifts _ _ small_k = inr (b'k', refl, refl)
IsUnit-Shifts _ _ large_k = inr (b'K', refl, refl)
IsUnit-Shifts _ _ small_m = inr (b'm', refl, refl)
IsUnit-Shifts _ _ large_m = inr (b'M', refl, refl)
IsUnit-Shifts _ _ small_g = inr (b'g', refl, refl)
IsUnit-Shifts _ _ large_g = inr (b'G', refl, refl)
IsUnit-Shifts _ _ small_t = inr (b't', refl, refl)
IsUnit-Shifts _ _ large_t = inr (b'T', refl, refl)

unit_not_digit : (c k : ℕ) → unit_shift c ≡ some k → is_digit c ≡ false
unfolding unit_shift
unit_not_digit c k h = ground (arith, h)

-- A letter for bytes is neither a digit nor a unit.
b_letter : (c : ℕ) → only_b (c ∷ []) ≡ true → (is_digit c ≡ false) × (unit_shift c ≡ none)
unfolding unit_shift
b_letter c h = ground (arith, h)

suffix_lem :
    (u b : Word) (k : ℕ)
    → Shifts u k
    → only_b b ≡ true
    → StopsDigits (u ++ b) × (take_unit (u ++ b) ≡ (k, b))
unfolding StopsDigits take_unit
suffix_lem [] [] k (inl (e, z)) h = (tt, ap (λ n. (n, [])) (sym z))
suffix_lem [] (c ∷ []) k (inl (e, z)) h =
    let (digit, unit) = b_letter c h in
    (
      digit,
      ap (λ (o : Option ℕ). elim o [ some n ↦ (n, []) | none ↦ (0, c ∷ []) ]) unit
          ∙ ap (λ n. (n, c ∷ [])) (sym z),
    )
suffix_lem [] (c ∷ d ∷ b) k (inl (e, z)) h = absurd (cc)
suffix_lem [] b k (inr (c, e, h')) h = absurd (cc)
suffix_lem (d ∷ u) b k (inl (e, z)) h = absurd (cc)
suffix_lem (d ∷ u) b k (inr (c, e, unit)) h =
    subst (λ (w : Word). StopsDigits (w ++ b) × (take_unit (w ++ b) ≡ (k, b))) {x = c ∷ []}
      {y = d ∷ u} (sym e)
      (
        unit_not_digit c k unit,
        ap (λ (o : Option ℕ). elim o [ some n ↦ (n, b) | none ↦ (0, c ∷ b) ]) unit,
      )

decimal_nonempty : (fuel n : ℕ) → (length (decimal (suc fuel) n) == 0) ≡ false
unfolding decimal
decimal_nonempty fuel n = elim (dec_lt n 10) [
  | yes h ↦
      ap (λ w. length w == 0) {x = decimal (suc fuel) n} {y = (b'0' + n) ∷ []} (ground (arith, h))
  | no h ↦
      ap (λ w. length w == 0) {x = decimal (suc fuel) n}
        {y = decimal fuel (n / 10) ++ (b'0' + n % 10) ∷ []} (ground (arith, h))
      ∙ positive _ _ (length-append (decimal fuel (n / 10)) ((b'0' + n % 10) ∷ []))
]
  where
    positive : (a b : ℕ) → a ≡ b + 1 → (a == 0) ≡ false
    positive a b e = ground (arith, e)

stoul-to_string : (n : ℕ) → n < 2 ^ 64 → stoul (to_string n) ≡ value n
unfolding stoul
stoul-to_string n h =
    ap (λ v. if ltb v (2 ^ 64) then value v else logic_error (codes "stoul"))
      (digits_value-decimal 20 n (omega (arith, h)))
    ∙ ap (λ b. if b then value n else logic_error (codes "stoul")) {x = ltb n (2 ^ 64)} {y = true}
        (ground (arith, h))

-- A number that fits a `size_t`, printed in digits, with a unit behind it or none (k, m, g or t in either
-- case) and the letter for bytes behind that or none, is read as the number times 1024, 1024 ^ 2,
-- 1024 ^ 3 or 1024 ^ 4 for these units, where the product wraps round as a `size_t`.
pub strsize-to_string :
    (n : ℕ) (u b : Word) (k : ℕ)
    → n < 2 ^ 64
    → IsUnit u k
    → only_b b ≡ true
    → strsize (to_string n ++ (u ++ b)) ≡ value (n * 2 ^ k % 2 ^ 64)
unfolding strsize AreDigits
strsize-to_string n u b k h unit only =
    let str = to_string n ++ (u ++ b) in
    let (stops, takes) = suffix_lem u b k (IsUnit-Shifts u k unit) only in
    ap (λ (x : Word × Word). sized str x.0 (take_unit x.1))
      (span_digits_lem (to_string n) (u ++ b) (decimal-AreDigits 20 n) stops)
    ∙ ap (sized str (to_string n)) takes
    ∙ ap₂
        (λ p q.
          if not p && q
          then (stoul (to_string n) and_then λ v. value (v * 2 ^ k % 2 ^ 64))
          else malformed str)
        (decimal_nonempty 19 n) only
    ∙ ap (λ (m : Checked ℕ). m and_then λ v. value (v * 2 ^ k % 2 ^ 64)) (stoul-to_string n h)
  where
    sized : Word → Word → ℕ × Word → Checked ℕ
    sized str digits y =
        if not (length digits == 0) && only_b y.1
        then (stoul digits and_then λ v. value (v * 2 ^ y.0 % 2 ^ 64))
        else malformed str

-- The two limits, as the code reads them.
limits : (strsize min_workmem ≡ value 4096) × (strsize min_sync_distance ≡ value (2 ^ 29))
unfolding strsize
limits = (refl, refl)

abbrev value_of : {A : Type 0} → A → Checked A → A
value_of a (value b) = b
value_of a (logic_error text) = a

passed :
    (c : Bool) (text : Word) (v n : ℕ)
    → (if c then logic_error text else value v) ≡ value n
    → (c ≡ false) × (v ≡ n)
passed true text v n e = absurd (cc)
passed false text v n e = (refl, ap (value_of 0) e)

-- A size that passes its check is read off its text.
checked_size :
    (m : Checked ℕ) (test : ℕ → Bool) (text : Word) (n : ℕ)
    → (m and_then λ v. if test v then logic_error text else value v) ≡ value n
    → (m ≡ value n) × (test n ≡ false)
checked_size (logic_error t) test text n e = absurd (cc)
checked_size (value v) test text n e =
    let (free, same) = passed (test v) text v n e in
    (ap value same, subst (λ k. test k ≡ false) same free)

memory_option_lem :
    (str : Word) (n : ℕ) → memory_option str ≡ value n → (strsize str ≡ value n) × (4096 ≤ n)
unfolding memory_option
memory_option_lem str n h =
    let text = codes "At least 4096B workmem is required." in
    let (e, free) =
      checked_size (strsize str) (λ v. ltb v 4096) text n
        (ap
            (λ (l : Checked ℕ). strsize str and_then λ v.
              l and_then λ least. if ltb v least then logic_error text else value v)
            (sym limits.0)
          ∙ h) in
    (e, ground (arith, free))

distance_option_lem :
    (str : Word) (n : ℕ)
    → distance_option str ≡ value n
    → (strsize str ≡ value n) × ((n ≡ 0) ⊎ (2 ^ 29 ≤ n))
unfolding distance_option
distance_option_lem str n h =
    let text = codes "Synchronization distance (if enabled) is no less than 512MB." in
    let (e, free) =
      checked_size (strsize str) (λ v. not (v == 0) && ltb v (2 ^ 29)) text n
        (ap
            (λ (l : Checked ℕ). strsize str and_then λ v.
              l and_then λ least. if not (v == 0) && ltb v least then logic_error text else value v)
            (sym limits.1)
          ∙ h) in
    (e, ground (arith, free))

-- What the four checks find, when all of them pass.
four_checks :
    (a : Arguments) (file dir : Checked Word) (memory distance : Checked ℕ) (o : ProgramOptions)
    → (file and_then λ origfile. dir and_then λ workdir. memory and_then λ workmem.
        distance and_then λ sync_distance. value (record {
          origfile = origfile;
          workdir = workdir;
          run = true;
          workmem = workmem;
          sync_distance = sync_distance;
          page_pinned = a.pinned;
          profile_only = a.wprof_only;
          merge_only = a.wmerge_only;
          disable_gc = a.no_gc;
        }))
      ≡ value o
    → (file ≡ value o.origfile)
      × (dir ≡ value o.workdir)
      × (memory ≡ value o.workmem)
      × (distance ≡ value o.sync_distance)
four_checks a (logic_error t) dir memory distance o e = absurd (cc)
four_checks a (value f) (logic_error t) memory distance o e = absurd (cc)
four_checks a (value f) (value d) (logic_error t) distance o e = absurd (cc)
four_checks a (value f) (value d) (value m) (logic_error t) o e = absurd (cc)
four_checks a (value f) (value d) (value m) (value n) o e =
    let same = ap (value_of o) e in
    (
      ap (λ (p : ProgramOptions). value p.origfile) same,
      ap (λ (p : ProgramOptions). value p.workdir) same,
      ap (λ (p : ProgramOptions). value p.workmem) same,
      ap (λ (p : ProgramOptions). value p.sync_distance) same,
    )

-- Options that pass the checks have the first of the positional arguments and the sizes that their texts
-- stand for; the working memory is 4096 bytes at least, and the synchronization distance is 0 or
-- 512 MiB at least.
pub check_options-within :
    (a : Arguments) (o : ProgramOptions)
    → check_options a ≡ value o
    → (strsize a.memory_size ≡ value o.workmem)
      × (strsize a.sync_distance_size ≡ value o.sync_distance)
      × (4096 ≤ o.workmem)
      × ((o.sync_distance ≡ 0) ⊎ (2 ^ 29 ≤ o.sync_distance))
      × (first_of (codes "FILE must be specified") a.origfiles ≡ value o.origfile)
      × (first_of (codes "WORKDIR must be specified") a.workdirs ≡ value o.workdir)
unfolding check_options
check_options-within a o h =
    let (file, dir, memory, distance) =
      four_checks a (first_of (codes "FILE must be specified") a.origfiles)
        (first_of (codes "WORKDIR must be specified") a.workdirs) (memory_option a.memory_size)
        (distance_option a.sync_distance_size) o h in
    let (m, enough) = memory_option_lem a.memory_size o.workmem memory in
    let (d, far) = distance_option_lem a.sync_distance_size o.sync_distance distance in
    (m, d, enough, far, file, dir)
