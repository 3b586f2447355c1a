-- ===== src/Find/First.antt =====
-- The word that `wfindfirst` returns is, among the words that occur once, the one that occurs first.
use wdedup.Prelude.{
  All, ℕ, ◌≤◌, ◌≡◌, ◌≢◌, refl, sym, ap, ◌∙◌, true, false, [], ◌∷◌, ◌⊎◌, arith, ltb, inl, inr,
  Bool-cases, subst,
}
use wdedup.Errors.{ok}
use wdedup.Word.{Word, word_eq}
use wdedup.Word.Order.{word_eq→eq, word_eq_refl}
use wdedup.Profile.{ProfileItem, Profile}
use wdedup.Profile.Status.{absent, once, status}
use wdedup.Profile.Ascending.{Above, Ascending, status-Above}
use wdedup.Profile.Unique.{status_head, status_tail}
use wdedup.Find.{find_first, replaces}
use wdedup.Find.Best.{best, find_first-best}

-- No item has the empty word.
abbrev pub HaveWords : Profile → Type 0
HaveWords = All (λ i. i.word ≢ [])

-- A word that occurs once in a table is that of its head, or occurs once in the rest.
once_cons_inv :
    (v : Word) (o : ℕ) (i : ProfileItem) (p : Profile)
    → Above i.word p
    → status v (i ∷ p) ≡ once o
    → ((i.word ≡ v) × (i.repeated ≡ false) × (i.occur ≡ o)) ⊎ (status v p ≡ once o)
once_cons_inv v o i p a h = elim (Bool-cases (word_eq i.word v)) [
  | inl hit ↦
      let e = word_eq→eq i.word v hit in
      let s = sym (status_head i p a) ∙ ap (λ w. status w (i ∷ p)) e ∙ h in
      inl (e, ground arith, ground arith)
  | inr miss ↦ inr (sym (status_tail v i p miss) ∙ h)
]

once_cons_head :
    (i : ProfileItem) (p : Profile)
    → Above i.word p
    → i.repeated ≡ false
    → status i.word (i ∷ p) ≡ once i.occur
once_cons_head i p a h = status_head i p a ∙ ground arith

once_cons_tail :
    (v : Word) (o : ℕ) (i : ProfileItem) (p : Profile)
    → Above i.word p
    → status v p ≡ once o
    → status v (i ∷ p) ≡ once o
once_cons_tail v o i p a h = elim (Bool-cases (word_eq i.word v)) [
  | inl hit ↦
      let e = word_eq→eq i.word v hit in
      let s = sym (subst (λ w. status w p ≡ absent) e (status-Above i.word p a)) ∙ h in
      absurd (ground arith)
  | inr miss ↦ status_tail v i p miss ∙ h
]

-- No word occurs once at an offset before `off`.
abbrev pub NoneBefore : ℕ → Profile → Type 0
NoneBefore off p = (v : Word) (o : ℕ) → status v p ≡ once o → off ≤ o

-- `w` occurs once, at `off`, and no other word that occurs once is before it.
abbrev pub IsFirst : Word → ℕ → Profile → Type 0
IsFirst w off p = (status w p ≡ once off) × NoneBefore off p

-- What the fold has found from a result that is set already.
abbrev Improves : Word → ℕ → Profile → Word × ℕ → Type 0
Improves r off p (r', off') =
    (r' ≢ [])
    × (off' ≤ off)
    × (((r' ≡ r) × (off' ≡ off)) ⊎ (status r' p ≡ once off'))
    × NoneBefore off' p

module _ (i : ProfileItem) (p : Profile) (a : Above i.word p) where
  -- The head item changes nothing if it is repeated or no earlier than the result.
  Improves-keep :
      (r : Word) (off : ℕ) (b : Word × ℕ)
      → (i.repeated ≡ false → off ≤ i.occur)
      → Improves r off p b
      → Improves r off (i ∷ p) b
  Improves-keep r off (r', off') late (n, le, from, none_before) = (n, le, source from, before)
    where
      source :
          ((r' ≡ r) × (off' ≡ off)) ⊎ (status r' p ≡ once off')
          → ((r' ≡ r) × (off' ≡ off)) ⊎ (status r' (i ∷ p) ≡ once off')
      source (inl e) = inl e
      source (inr e) = inr (once_cons_tail r' off' i p a e)

      before : NoneBefore off' (i ∷ p)
      before v o h = elim (once_cons_inv v o i p a h) [
        | inl (_, single, at) ↦ omega (arith, late single)
        | inr rest ↦ none_before v o rest
      ]

  -- A head item that is taken is itself the first, or an item behind it is.
  IsFirst-take :
      (b : Word × ℕ) → i.repeated ≡ false → Improves i.word i.occur p b → IsFirst b.0 b.1 (i ∷ p)
  IsFirst-take (r', off') single (n, le, from, none_before) = (found from, before)
    where
      found :
          ((r' ≡ i.word) × (off' ≡ i.occur)) ⊎ (status r' p ≡ once off')
          → status r' (i ∷ p) ≡ once off'
      found (inl (e, f)) = rw (e, f) (once_cons_head i p a single)
      found (inr e) = once_cons_tail r' off' i p a e

      before : NoneBefore off' (i ∷ p)
      before v o h = elim (once_cons_inv v o i p a h) [
        | inl (_, _, at) ↦ omega arith
        | inr rest ↦ none_before v o rest
      ]

-- The fold steps over a repeated item, steps over a single one, or takes it.
best_cases {ℓ} :
    (P : Word × ℕ → Type ℓ) (i : ProfileItem) (p : Profile) (r : Word) (off : ℕ)
    → (i.repeated ≡ true → P (best p r off))
    → (i.repeated ≡ false → replaces r off i ≡ false → P (best p r off))
    → (i.repeated ≡ false → replaces r off i ≡ true → P (best p i.word i.occur))
    → P (best (i ∷ p) r off)
unfolding best
best_cases P i p r off more kept taken = elim (Bool-cases i.repeated) [
  | inl h ↦ rw h (more h)
  | inr h ↦ elim (Bool-cases (replaces r off i)) [
    | inl k ↦ rw (h, k) (taken h k)
    | inr k ↦ rw (h, k) (kept h k)
  ]
]

replaces_of_ne :
    (r : Word) (off : ℕ) (i : ProfileItem) → r ≢ [] → replaces r off i ≡ ltb i.occur off
replaces_of_ne r off i h = ground (arith, word_eq→eq r [])

best-Improves :
    (p : Profile) (r : Word) (off : ℕ)
    → Ascending p
    → HaveWords p
    → r ≢ []
    → Improves r off p (best p r off)
unfolding best status
best-Improves [] r off a n h = (h, omega arith, inl (refl, refl), λ v o e. cc)
best-Improves (i ∷ p) r off a n h =
    best_cases (Improves r off (i ∷ p)) i p r off
      (λ more. Improves-keep i p a.0 r off _ (λ one. cc) (best-Improves p r off a.1 n.1 h))
      (λ one late.
        Improves-keep i p a.0 r off _ (λ _. ground (arith, replaces_of_ne r off i h))
          (best-Improves p r off a.1 n.1 h))
      λ one early.
        let b = best-Improves p i.word i.occur a.1 n.1 n.0 in
        let f = IsFirst-take i p a.0 _ one b in
        (b.0, ground (arith, replaces_of_ne r off i h), inr f.0, f.1)

-- What the fold finds from no result.
abbrev Finds : Profile → Word × ℕ → Type 0
Finds p (r, off) =
    ((r ≡ []) × ((v : Word) (o : ℕ) → status v p ≢ once o)) ⊎ ((r ≢ []) × IsFirst r off p)

Finds-more :
    (i : ProfileItem) (p : Profile) (b : Word × ℕ)
    → Above i.word p
    → i.repeated ≡ true
    → Finds p b
    → Finds (i ∷ p) b
Finds-more i p (r, off) a more (inl (e, nothing)) = inl (
  e,
  λ v o h. elim (once_cons_inv v o i p a h) [ inl (_, one, _) ↦ cc | inr rest ↦ nothing v o rest ],
)
Finds-more i p (r, off) a more (inr (n, (found, before))) = inr (
  n,
  (
    once_cons_tail r off i p a found,
    λ v o h. elim (once_cons_inv v o i p a h) [
      | inl (_, one, _) ↦ absurd (cc)
      | inr rest ↦ before v o rest
    ],
  ),
)

best-Finds : (p : Profile) → Ascending p → HaveWords p → Finds p (best p [] 0)
unfolding best status
best-Finds [] a n = inl (refl, λ v o e. cc)
best-Finds (i ∷ p) a n =
    best_cases (Finds (i ∷ p)) i p [] 0 (λ more. Finds-more i p _ a.0 more (best-Finds p a.1 n.1))
      (λ one late. absurd (ground (arith, word_eq_refl [])))
      λ one early.
        let b = best-Improves p i.word i.occur a.1 n.1 n.0 in
        inr (b.0, IsFirst-take i p a.0 _ one b)

-- `wfindfirst` on a sorted table of words that are not empty returns, and the result is empty
-- exactly when no word occurs once; otherwise it occurs once, and no word that occurs once does so
-- at a smaller offset.
pub find_first-IsFirst :
    (p : Profile)
    → Ascending p
    → HaveWords p
    → (r : Word) × (off : ℕ) × (find_first p ≡ ok r)
      × (((r ≡ []) × ((v : Word) (o : ℕ) → status v p ≢ once o)) ⊎ ((r ≢ []) × IsFirst r off p))
find_first-IsFirst p a n = (_, _, find_first-best p, best-Finds p a n)
