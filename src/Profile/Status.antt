-- ===== src/Profile/Status.antt =====
-- What a profile says of a word: the abstract view in which profiles are compared and merged.
use wdedup.Prelude.{ap, ◌∙◌, ℕ, ◌≡◌, refl, sym, [], ◌∷◌, ◌++◌, if◌then◌else◌}
use wdedup.Word.{Word, word_eq}
use wdedup.Profile.{ProfileItem, Profile}

-- A word is not there, was seen once at an offset, or was seen again.
pub data Status : Type 0 where
  absent : Status
  once : ℕ → Status
  many : Status

-- What is known of a word from two disjoint parts of the text.
infixl 65 ◌⊕◌
abbrev pub ◌⊕◌ : Status → Status → Status
absent ⊕ t = t
once off ⊕ absent = once off
once off ⊕ once p = many
once off ⊕ many = many
many ⊕ t = many

pub ⊕_absent : (s : Status) → s ⊕ absent ≡ s
⊕_absent absent = refl
⊕_absent (once off) = refl
⊕_absent many = refl

pub ⊕_many : (s : Status) → s ⊕ many ≡ many
⊕_many absent = refl
⊕_many (once off) = refl
⊕_many many = refl

pub ⊕_assoc : (s t u : Status) → s ⊕ t ⊕ u ≡ s ⊕ (t ⊕ u)
⊕_assoc absent t u = refl
⊕_assoc (once off) absent u = refl
⊕_assoc (once off) (once p) absent = refl
⊕_assoc (once off) (once p) (once q) = refl
⊕_assoc (once off) (once p) many = refl
⊕_assoc (once off) many u = refl
⊕_assoc many t u = refl

pub ⊕_comm : (s t : Status) → s ⊕ t ≡ t ⊕ s
⊕_comm absent t = sym (⊕_absent t)
⊕_comm (once off) absent = refl
⊕_comm (once off) (once p) = refl
⊕_comm (once off) many = refl
⊕_comm many t = sym (⊕_many t)

abbrev pub item_status : ProfileItem → Status
item_status i = if i.repeated then many else once i.occur

-- What one item says of a word.
abbrev pub says : Word → ProfileItem → Status
says w i = if word_eq i.word w then item_status i else absent

pub ⊕_swap : (s t u : Status) → s ⊕ (t ⊕ u) ≡ t ⊕ (s ⊕ u)
⊕_swap s t u = sym (⊕_assoc s t u) ∙ ap (λ r. r ⊕ u) (⊕_comm s t) ∙ ⊕_assoc t s u

-- The status of a word in a table, whatever the order of the items.
unfoldable pub status : Word → Profile → Status
status w [] = absent
status w (i ∷ p) = says w i ⊕ status w p

pub status-append : (w : Word) (p q : Profile) → status w (p ++ q) ≡ status w p ⊕ status w q
unfolding status
status-append w [] q = refl
status-append w (i ∷ p) q = rw (status-append w p q) (sym (⊕_assoc _ (status w p) (status w q)))
