-- ===== src/Profile/Unique.antt =====
-- A sorted table is determined by what it says of each word.
use wdedup.Prelude.{
  ◌≡◌, ◌≢◌, refl, sym, ap, ap₂, subst, ◌∙◌, true, false, [], ◌∷◌, arith, inl, inr, Bool-cases, All,
}
use wdedup.Word.{Word, word_lt, word_eq}
use wdedup.Word.Order.{word_lt_connex, word_eq→eq, word_eq_refl}
use wdedup.Profile.{ProfileItem, Profile}
use wdedup.Profile.Status.{absent, status, item_status, ⊕_absent}
use wdedup.Profile.Ascending.{Above, Ascending, Above-mono, status-Above}

-- A repeated item carries no offset, as its constructor makes it.
abbrev pub IsPlain : ProfileItem → Type 0
IsPlain i = i.repeated ≡ true → i.occur ≡ 0

abbrev pub ArePlain : Profile → Type 0
ArePlain = All IsPlain

pub status_head :
    (i : ProfileItem) (p : Profile) → Above i.word p → status i.word (i ∷ p) ≡ item_status i
unfolding status
status_head i p a =
    ground (arith, status-Above i.word p a, word_eq_refl i.word, ⊕_absent (item_status i))

pub status_tail :
    (w : Word) (i : ProfileItem) (p : Profile)
    → word_eq i.word w ≡ false
    → status w (i ∷ p) ≡ status w p
unfolding status
status_tail w i p h = rw h

item_status-ne-absent : (i : ProfileItem) → item_status i ≢ absent
item_status-ne-absent i = ground arith

item_status_injective :
    (i j : ProfileItem)
    → i.word ≡ j.word
    → IsPlain i
    → IsPlain j
    → item_status i ≡ item_status j
    → i ≡ j
item_status_injective i j e m n h = ground arith

-- A table whose words are all above another's head lacks that head.
head_clash :
    (i : ProfileItem) (p q : Profile)
    → Above i.word p
    → Above i.word q
    → status i.word (i ∷ p) ≢ status i.word q
head_clash i p q a b e =
    item_status-ne-absent i (sym (status_head i p a) ∙ e ∙ status-Above i.word q b)

same_tails :
    (i j : ProfileItem) (p q : Profile)
    → i.word ≡ j.word
    → Above i.word p
    → Above j.word q
    → ((w : Word) → status w (i ∷ p) ≡ status w (j ∷ q))
    → (w : Word) → status w p ≡ status w q
same_tails i j p q e a b h w = elim (Bool-cases (word_eq i.word w)) [
  | inl hit ↦
      let k = word_eq→eq i.word w hit in
      subst (λ v. status v p ≡ absent) k (status-Above i.word p a)
      ∙ sym (subst (λ v. status v q ≡ absent) (sym e ∙ k) (status-Above j.word q b))
  | inr miss ↦
      sym (status_tail w i p miss)
      ∙ h w
      ∙ status_tail w j q (subst (λ v. word_eq v w ≡ false) e miss)
]

-- Two sorted tables of plain items that say the same of every word are one table.
pub Ascending-unique :
    (p q : Profile)
    → Ascending p
    → Ascending q
    → ArePlain p
    → ArePlain q
    → ((w : Word) → status w p ≡ status w q)
    → p ≡ q
Ascending-unique [] [] a b m n h = refl
Ascending-unique [] (j ∷ q) a b m n h = absurd (head_clash j q [] b.0 tt (sym (h j.word)))
Ascending-unique (i ∷ p) [] a b m n h = absurd (head_clash i p [] a.0 tt (h i.word))
Ascending-unique (i ∷ p) (j ∷ q) a b m n h = elim (Bool-cases (word_lt i.word j.word)) [
  | inl lt ↦ absurd (head_clash i p (j ∷ q) a.0 (lt, Above-mono i.word j.word q lt b.0) (h i.word))
  | inr ge ↦ elim (Bool-cases (word_lt j.word i.word)) [
    | inl lt ↦
        absurd (head_clash j q (i ∷ p) b.0 (lt, Above-mono j.word i.word p lt a.0) (sym (h j.word)))
    | inr le ↦
        let e = word_lt_connex i.word j.word ge le in
        let s =
          sym (status_head i p a.0)
          ∙ h i.word
          ∙ ap (λ w. status w (j ∷ q)) e
          ∙ status_head j q b.0 in
        ap₂ ◌∷◌ (item_status_injective i j e m.0 n.0 s)
          (Ascending-unique p q a.1 b.1 m.1 n.1 (same_tails i j p q e a.0 b.0 h))
  ]
]
