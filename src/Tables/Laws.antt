-- ===== src/Tables/Laws.antt =====
-- The merged table is a sorted table, and says of each word what the two inputs say together.
use wdedup.Prelude.{
  All, ◌≡◌, refl, sym, subst, ap, ap₂, ◌∙◌, true, false, [], ◌∷◌, ◌++◌, append_assoc, append-nil,
  arith, inl, inr, Bool-cases,
}
use wdedup.Word.{Word, word_lt}
use wdedup.Word.Order.{word_lt_connex}
use wdedup.Profile.{ProfileItem, Profile, push, repeated_item}
use wdedup.Profile.Status.{
  says, ⊕_swap, status-append, Status, ◌⊕◌, status, ⊕_assoc, ⊕_comm, ⊕_absent,
}
use wdedup.Profile.Ascending.{Above, Ascending, Above-mono}
use wdedup.Tables.{drain, merge_into}

-- The merge as one recursion, with no accumulator.
unfoldable pub interleave : Profile → Profile → Profile
interleave [] right = right
interleave (x ∷ left) [] = x ∷ left
interleave (x ∷ left) (y ∷ right) = elim (word_lt x.word y.word) [
  | true ↦ x ∷ interleave left (y ∷ right)
  | false ↦ elim (word_lt y.word x.word) [
    | true ↦ y ∷ interleave (x ∷ left) right
    | false ↦ repeated_item x.word ∷ interleave left right
  ]
]

-- The three ways in which two heads compare, each with its step of the merge.
pub interleave_cases {ℓ} :
    (P : Profile → Type ℓ) (x y : ProfileItem) (left right : Profile)
    → (word_lt x.word y.word ≡ true → P (x ∷ interleave left (y ∷ right)))
    → (word_lt y.word x.word ≡ true → P (y ∷ interleave (x ∷ left) right))
    → (x.word ≡ y.word → P (repeated_item x.word ∷ interleave left right))
    → P (interleave (x ∷ left) (y ∷ right))
unfolding interleave
interleave_cases P x y left right lt gt eq = elim (Bool-cases (word_lt x.word y.word)) [
  | inl h ↦ rw (h, interleave) (lt h)
  | inr h ↦ elim (Bool-cases (word_lt y.word x.word)) [
    | inl k ↦ rw (h, k, interleave) (gt k)
    | inr k ↦ rw (h, k, interleave) (eq (word_lt_connex x.word y.word h k))
  ]
]

drain_lem : (rest out : Profile) → drain rest out ≡ out ++ rest
unfolding drain push
drain_lem [] out = sym (append-nil out)
drain_lem (x ∷ rest) out = drain_lem rest (push out x) ∙ append_assoc out (x ∷ []) rest

merge_into_left : (left out : Profile) → drain [] (drain left out) ≡ out ++ left
unfolding drain
merge_into_left left out = drain_lem left out

-- What the loops add to the output is the interleaving, whatever it held before.
pub merge_into-interleave :
    (left right out : Profile) → merge_into left right out ≡ out ++ interleave left right
unfolding merge_into interleave
merge_into-interleave [] right out = drain_lem right out
merge_into-interleave (x ∷ left) [] out = drain_lem (x ∷ left) out
merge_into-interleave (x ∷ left) (y ∷ right) out = ground (
  arith,
  merge_into-interleave left (y ∷ right) (out ++ x ∷ []),
  merge_into-interleave (x ∷ left) right (out ++ y ∷ []),
  merge_into-interleave left right (out ++ repeated_item x.word ∷ []),
  append_assoc out (x ∷ []) (interleave left (y ∷ right)),
  append_assoc out (y ∷ []) (interleave (x ∷ left) right),
  append_assoc out (repeated_item x.word ∷ []) (interleave left right),
)

pub interleave-Above :
    (w : Word) (left right : Profile)
    → Above w left
    → Above w right
    → Above w (interleave left right)
unfolding interleave
interleave-Above w [] right a b = b
interleave-Above w (x ∷ left) [] a b = a
interleave-Above w (x ∷ left) (y ∷ right) a b = ground (
  arith,
  interleave-Above w left (y ∷ right) a.1 b,
  interleave-Above w (x ∷ left) right a b.1,
  interleave-Above w left right a.1 b.1,
)

Above-of_lt :
    (v : Word) (y : ProfileItem) (p : Profile)
    → word_lt v y.word ≡ true
    → Above y.word p
    → Above v (y ∷ p)
Above-of_lt v y p h a = (h, Above-mono v y.word p h a)

interleave-Ascending :
    (left right : Profile) → Ascending left → Ascending right → Ascending (interleave left right)
unfolding interleave
interleave-Ascending [] right a b = b
interleave-Ascending (x ∷ left) [] a b = a
interleave-Ascending (x ∷ left) (y ∷ right) a b =
    interleave_cases Ascending x y left right
      (λ lt. (
        interleave-Above x.word left (y ∷ right) a.0 (Above-of_lt x.word y right lt b.0),
        interleave-Ascending left (y ∷ right) a.1 b,
      ))
      (λ lt. (
        interleave-Above y.word (x ∷ left) right (Above-of_lt y.word x left lt a.0) b.0,
        interleave-Ascending (x ∷ left) right a b.1,
      ))
      λ e. (
        interleave-Above x.word left right a.0 (subst (λ v. Above v right) (sym e) b.0),
        interleave-Ascending left right a.1 b.1,
      )

⊕_cross : (s t u v : Status) → s ⊕ t ⊕ (u ⊕ v) ≡ (s ⊕ u) ⊕ (t ⊕ v)
⊕_cross s t u v =
    ⊕_assoc s t (u ⊕ v)
    ∙ ap (◌⊕◌ s) (sym (⊕_assoc t u v) ∙ ap (λ r. r ⊕ v) (⊕_comm t u) ∙ ⊕_assoc u t v)
    ∙ sym (⊕_assoc s u (t ⊕ v))

-- Two items for one word make a repeated one.
says_twice :
    (w : Word) (x y : ProfileItem)
    → x.word ≡ y.word
    → says w (repeated_item x.word) ≡ says w x ⊕ says w y
says_twice w x y e = ground arith

status-interleave :
    (w : Word) (left right : Profile)
    → status w (interleave left right) ≡ status w left ⊕ status w right
unfolding interleave status
status-interleave w [] right = refl
status-interleave w (x ∷ left) [] = sym (⊕_absent _)
status-interleave w (x ∷ left) (y ∷ right) =
    interleave_cases (λ p. status w p ≡ status w (x ∷ left) ⊕ status w (y ∷ right)) x y left right
      (λ lt.
        ap (◌⊕◌ (says w x)) (status-interleave w left (y ∷ right)) ∙ sym (⊕_assoc (says w x) _ _))
      (λ lt.
        ap (◌⊕◌ (says w y)) (status-interleave w (x ∷ left) right)
        ∙ ⊕_swap (says w y) (status w (x ∷ left)) (status w right))
      λ e.
        ap₂ ◌⊕◌ (says_twice w x y e) (status-interleave w left right)
        ∙ ⊕_cross (says w x) (says w y) (status w left) (status w right)

-- A property of items that a repeated item for the same word has holds of the merged items.
pub merge_into-All :
    (P : ProfileItem → Type 0) (left right : Profile)
    → ((i : ProfileItem) → P i → P (repeated_item i.word))
    → All P left
    → All P right
    → All P (merge_into left right [])
unfolding interleave
merge_into-All P left right f a b = rw (merge_into-interleave left right []) (go left right a b)
  where
    go : (l r : Profile) → All P l → All P r → All P (interleave l r)
    go [] r a b = b
    go (x ∷ l) [] a b = a
    go (x ∷ l) (y ∷ r) a b =
        interleave_cases (All P) x y l r (λ _. (a.0, go l (y ∷ r) a.1 b))
          (λ _. (b.0, go (x ∷ l) r a b.1)) λ _. (f x a.0, go l r a.1 b.1)

-- The three loops together: from an empty output and two sorted tables they make a sorted table.
pub merge_into-Ascending :
    (left right : Profile) → Ascending left → Ascending right → Ascending (merge_into left right [])
merge_into-Ascending left right a b =
    rw (merge_into-interleave left right []) (interleave-Ascending left right a b)

-- The merged table says of every word what the two tables say together, sorted or not, on top of
-- what the output held before.
pub status-merge_into :
    (w : Word) (left right out : Profile)
    → status w (merge_into left right out) ≡ status w out ⊕ (status w left ⊕ status w right)
status-merge_into w left right out = rw (merge_into-interleave left right out) (
    status-append w out (interleave left right)
    ∙ ap (◌⊕◌ (status w out)) (status-interleave w left right))
