-- ===== src/Cli/Replace.antt =====
-- `strsub`: what it does to a string, and where it does not end.
use wdedup.Prelude.{
  ℕ, zero, suc, ◌≡◌, refl, sym, ap, ap₂, ◌∙◌, Bool, true, [], ◌∷◌, ◌++◌, inl, inr, Option, none,
  some, arith, ◌==◌, if◌then◌else◌, append_assoc, Option-cases,
}
use wdedup.Errors.{ok, stuck}
use wdedup.Word.{Word}
use wdedup.Cli.{behind, found_at, find_sub, strsub}

behind-append : (l s : Word) → behind l (l ++ s) ≡ some s
unfolding behind
behind-append [] s = refl
behind-append (c ∷ l) s =
    ap (λ (b : Bool). if b then behind l (l ++ s) else none) {x = c == c} {y = true} (ground arith)
    ∙ behind-append l s

find_sub_cons :
    (l : Word) (c : ℕ) (s : Word)
    → find_sub l (c ∷ s) ≡ found_at c (behind l (c ∷ s)) (find_sub l s)
unfolding find_sub
find_sub_cons l c s = refl

-- A string that contains `l` has an occurrence that the search finds.
find_contained :
    (l before rest : Word)
    → (a : Word) × (b : Word) × (find_sub l (before ++ (l ++ rest)) ≡ some (a, b))
find_contained [] [] [] = ([], [], unfold find_sub in unfold behind in refl)
find_contained [] [] (c ∷ rest) = ([], c ∷ rest, unfold find_sub in unfold behind in refl)
find_contained (c ∷ l) [] rest = (
  [],
  rest,
  find_sub_cons (c ∷ l) c (l ++ rest)
      ∙ ap (λ o. found_at c o (find_sub (c ∷ l) (l ++ rest))) (behind-append (c ∷ l) rest),
)
find_contained l (c ∷ before) rest =
    let s = before ++ (l ++ rest) in
    let (a, b, e) = find_contained l before rest in
    elim (Option-cases (behind l (c ∷ s))) [
      | inl n ↦ (c ∷ a, b, find_sub_cons l c s ∙ ap₂ (found_at c) n e)
      | inr (x, y) ↦ ([], x, find_sub_cons l c s ∙ ap (λ o. found_at c o (find_sub l s)) y)
    ]

strsub_step :
    (fuel : ℕ) (str l r a b : Word)
    → find_sub l str ≡ some (a, b)
    → strsub (suc fuel) str l r ≡ strsub fuel (a ++ (r ++ b)) l r
unfolding strsub
strsub_step fuel str l r a b e =
    ap
      (λ (o : Option (Word × Word)). elim o [
        | none ↦ ok str
        | some x ↦ strsub fuel (x.0 ++ (r ++ x.1)) l r
      ])
      e

-- Where the replacement contains what is replaced, and the string does so too, no number of rounds is enough.
pub strsub-stuck :
    (fuel : ℕ) (l before rest a b : Word)
    → strsub fuel (before ++ (l ++ rest)) l (a ++ (l ++ b)) ≡ stuck
strsub-stuck zero l before rest a b = unfold strsub in refl
strsub-stuck (suc fuel) l before rest a b =
    let (x, y, e) = find_contained l before rest in
    strsub_step fuel (before ++ (l ++ rest)) l (a ++ (l ++ b)) x y e
    ∙ ap (λ s. strsub fuel s l (a ++ (l ++ b)))
        (ap (◌++◌ x) (append_assoc a (l ++ b) y ∙ ap (◌++◌ a) (append_assoc l b y))
          ∙ sym (append_assoc x a (l ++ (b ++ y))))
    ∙ strsub-stuck fuel l (x ++ a) (b ++ y) a b
