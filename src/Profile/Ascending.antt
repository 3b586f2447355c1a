-- ===== src/Profile/Ascending.antt =====
-- Profiles sorted by word, each word at most once.
use wdedup.Prelude.{◌≡◌, refl, true, [], ◌∷◌, arith}
use wdedup.Word.{Word, word_lt}
use wdedup.Word.Order.{word_lt_trans, word_eq_of_lt, word_lt_asymm, word_eq→eq}
use wdedup.Profile.{Profile}
use wdedup.Profile.Status.{absent, status}

-- Every word of the table comes after `w`.
abbrev pub Above : Word → Profile → Type 0
Above w [] = Unit {0}
Above w (i ∷ p) = (word_lt w i.word ≡ true) × Above w p

abbrev pub Ascending : Profile → Type 0
Ascending [] = Unit {0}
Ascending (i ∷ p) = Above i.word p × Ascending p

pub Above-mono : (v w : Word) (p : Profile) → word_lt v w ≡ true → Above w p → Above v p
Above-mono v w [] h a = tt
Above-mono v w (i ∷ p) h a = (word_lt_trans v w i.word h a.0, Above-mono v w p h a.1)

pub status-Above : (w : Word) (p : Profile) → Above w p → status w p ≡ absent
unfolding status
status-Above w [] a = refl
status-Above w (i ∷ p) a = ground (
  arith,
  word_eq→eq i.word w,
  word_lt_asymm w i.word a.0,
  status-Above w p a.1,
  word_eq_of_lt w i.word a.0,
)
