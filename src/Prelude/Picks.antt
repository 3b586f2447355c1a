-- ===== src/Prelude/Picks.antt =====
-- Predicates of all elements, and an element taken out of a list.
use mathlib.Core.Path.{◌≡◌, refl, ap, sym}
use mathlib.Core.Logic.{◌≢◌, ◌↔◌}
use mathlib.Core.List.{List, [], ◌∷◌, ◌++◌, map}

-- A predicate of every element, by recursion, so that it computes to tuples.
abbrev pub All {ℓ κ} : {A : Type ℓ} → (A → Type κ) → List A → Type κ
All P [] = Unit
All P (x ∷ xs) = P x × All P xs

pub All-append {ℓ κ} :
    {A : Type ℓ} (P : A → Type κ) (xs ys : List A) → All P xs → All P ys → All P (xs ++ ys)
All-append P [] ys hx hy = hy
All-append P (x ∷ xs) ys hx hy = (hx.0, All-append P xs ys hx.1 hy)

pub All-right {ℓ κ} : {A : Type ℓ} (P : A → Type κ) (xs ys : List A) → All P (xs ++ ys) → All P ys
All-right P [] ys h = h
All-right P (x ∷ xs) ys h = All-right P xs ys h.1

pub All-mono {ℓ κ μ} :
    {A : Type ℓ} (P : A → Type κ) (Q : A → Type μ) (xs : List A)
    → ((x : A) → P x → Q x)
    → All P xs
    → All Q xs
All-mono P Q [] f h = tt
All-mono P Q (x ∷ xs) f h = (f x h.0, All-mono P Q xs f h.1)

-- `x` stands somewhere in the first list, and the second is what is left without it.
pub data Pick {ℓ} {A : Type ℓ} : A → List A → List A → Type ℓ where
  here : {x : A} {l : List A} → Pick x (x ∷ l) l
  there : {x y : A} {l r : List A} → Pick x l r → Pick x (y ∷ l) (y ∷ r)

pub Pick-All {ℓ κ} :
    {A : Type ℓ} (P : A → Type κ) {x : A} {l r : List A} → Pick x l r → All P l → P x × All P r
Pick-All P here h = h
Pick-All P (there p) h = let (a, b) = Pick-All P p h.1 in (a, (h.0, b))

pub Pick-append {ℓ} :
    {A : Type ℓ} {x : A} {l r : List A} (s : List A) → Pick x l r → Pick x (l ++ s) (r ++ s)
Pick-append s here = here
Pick-append s (there p) = there (Pick-append s p)

pub Pick-middle {ℓ} : {A : Type ℓ} (l : List A) (x : A) (r : List A) → Pick x (l ++ x ∷ r) (l ++ r)
Pick-middle [] x r = here
Pick-middle (y ∷ l) x r = there (Pick-middle l x r)

pub Pick-second {ℓ} :
    {A : Type ℓ} (l : List A) (x y : A) (r : List A) → Pick y (l ++ x ∷ y ∷ r) (l ++ x ∷ r)
Pick-second [] x y r = there here
Pick-second (z ∷ l) x y r = there (Pick-second l x y r)

-- Two elements are picked in either order.
pub Pick-swap {ℓ} :
    {A : Type ℓ} {x y : A} {l r s : List A}
    → Pick x l r
    → Pick y r s
    → (t : List A) × Pick y l t × Pick x t s
Pick-swap here q = (_, there q, here)
Pick-swap (there p) here = (_, here, p)
Pick-swap (there {y} p) (there q) = let (t, a, b) = Pick-swap p q in (y ∷ t, there a, there b)

pub Pick-split {ℓ} :
    {A : Type ℓ} {x : A} {l r : List A}
    → Pick x l r
    → (a : List A) × (b : List A) × (l ≡ a ++ x ∷ b) × (r ≡ a ++ b)
Pick-split here = ([], _, refl, refl)
Pick-split (there {y} p) = let (a, b, e, f) = Pick-split p in (y ∷ a, b, ap (◌∷◌ y) e, ap (◌∷◌ y) f)

-- No element stands twice.
abbrev pub Distinct {ℓ} : {A : Type ℓ} → List A → Type ℓ
Distinct [] = Unit
Distinct (x ∷ xs) = All (λ y. x ≢ y) xs × Distinct xs

pub Pick-Distinct {ℓ} :
    {A : Type ℓ} {x : A} {l r : List A} → Pick x l r → Distinct l → All (λ y. x ≢ y) r × Distinct r
Pick-Distinct here d = d
Pick-Distinct {x} (there {y} p) d =
    let (a, b) = Pick-All (λ z. y ≢ z) p d.0 in
    let (f, g) = Pick-Distinct p d.1 in ((λ e. a (sym e), f), (b, g))

-- A picked element of a mapped list is the image of one that can be picked.
pub Pick-map {ℓ κ} :
    {A : Type ℓ} {B : Type κ} (f : A → B) (l : List A) {b : B} {r : List B}
    → Pick b (map f l) r
    → (a : A) × (s : List A) × Pick a l s × (f a ≡ b) × (map f s ≡ r)
Pick-map f [] p = elim p [ ]
Pick-map f (y ∷ l) here = (y, l, here, refl, refl)
Pick-map f (y ∷ l) (there p) =
    let (a, s, q, e, h) = Pick-map f l p in (a, y ∷ s, there q, e, ap (◌∷◌ (f y)) h)

pub Pick-map_of {ℓ κ} :
    {A : Type ℓ} {B : Type κ} (f : A → B) {a : A} {l r : List A}
    → Pick a l r
    → Pick (f a) (map f l) (map f r)
Pick-map_of f here = here
Pick-map_of f (there p) = there (Pick-map_of f p)

pub All-map {ℓ κ μ} :
    {A : Type ℓ} {B : Type κ} (P : B → Type μ) (f : A → B) (l : List A)
    → All (λ a. P (f a)) l ↔ All P (map f l)
All-map P f [] = (λ h. h, λ h. h)
All-map P f (a ∷ l) = let (to, from) = All-map P f l in (λ h. (h.0, to h.1), λ h. (h.0, from h.1))

-- The converses, for an element put into a list.
pub All-of_Pick {ℓ κ} :
    {A : Type ℓ} (P : A → Type κ) {x : A} {l r : List A} → Pick x l r → P x → All P r → All P l
All-of_Pick P here h k = (h, k)
All-of_Pick P (there p) h k = (k.0, All-of_Pick P p h k.1)

pub Distinct-of_Pick {ℓ} :
    {A : Type ℓ} {x : A} {l r : List A} → Pick x l r → Distinct r → All (λ y. y ≢ x) r → Distinct l
Distinct-of_Pick here d h = (All-mono _ _ _ (λ y n e. n (sym e)) h, d)
Distinct-of_Pick (there {y} p) d h =
    (All-of_Pick (λ z. y ≢ z) p h.0 d.0, Distinct-of_Pick p d.1 h.1)

pub Pick-map_put {ℓ κ} :
    {A : Type ℓ} {B : Type κ} (f : A → B) (a : A) (s : List A) {t : List B}
    → Pick (f a) t (map f s)
    → (l : List A) × Pick a l s × (map f l ≡ t)
Pick-map_put f a [] here = (a ∷ [], here, refl)
Pick-map_put f a (y ∷ s) here = (a ∷ y ∷ s, here, refl)
Pick-map_put f a (y ∷ s) (there p) =
    let (l, q, e) = Pick-map_put f a s p in (y ∷ l, there q, ap (◌∷◌ (f y)) e)

-- Two properties of every element are one.
pub All-both {ℓ κ μ} :
    {A : Type ℓ} (P : A → Type κ) (Q : A → Type μ) (l : List A)
    → All P l
    → All Q l
    → All (λ a. P a × Q a) l
All-both P Q [] h k = tt
All-both P Q (a ∷ l) h k = ((h.0, k.0), All-both P Q l h.1 k.1)
