-- ===== src/Profiling/Text.antt =====
-- Every text has its words, so that the loop over a segment has a result for every text.
use wdedup.Prelude.{
  ℕ, zero, suc, ◌+◌, ◌≤◌, ◌<◌, ◌^◌, ◌≡◌, refl, sym, ap, ap₂, ◌∙◌, subst, false, List, [], ◌∷◌,
  length, arith, inl, inr, All, Bool-cases,
}
use wdedup.Errors.{Error}
use wdedup.Word.{Word, NoNull, AreBytes}
use wdedup.Rbtree.{Rbtree}
use wdedup.Dedup.{TreeDedup}
use wdedup.Dedup.Refine.{IsOccurrence, IsSorted}
use wdedup.Reader.{Reader, is_whitespace}
use wdedup.Reader.Spaces.{skip_spaces}
use wdedup.Reader.Words.{split_word}
use wdedup.Reader.Text.{InText, length-skip_spaces}
use wdedup.Profiling.{fill_segment}
use wdedup.Profiling.Fill.{WordsOf, no_word, next_word, Fills}
use wdedup.Profiling.Segment.{fill_segment-Fills}

-- A text: bytes without the terminator, whose positions are those of a file.
pub record IsPlainText (pos : ℕ) (s : List ℕ) : Type 0 where
  pub no_null : NoNull s
  pub bytes : AreBytes s
  pub small : pos + length s < 2 ^ 64

-- No whitespace at the start.
abbrev StartsWord : List ℕ → Type 0
StartsWord [] = Unit {0}
StartsWord (b ∷ s) = is_whitespace b ≡ false

-- What `x` leaves of a text with this end.
abbrev Leaves : ℕ → ℕ × List ℕ → Type 0
Leaves end (p, t) = NoNull t × AreBytes t × (p + length t ≡ end) × StartsWord t

skip_spaces-Leaves :
    (pos : ℕ) (s : List ℕ) → NoNull s → AreBytes s → Leaves (pos + length s) (skip_spaces pos s)
unfolding skip_spaces
skip_spaces-Leaves pos [] n h = (n, h, refl, tt)
skip_spaces-Leaves pos (b ∷ s) n h = elim (Bool-cases (is_whitespace b)) [
  | inl y ↦ subst (Leaves (pos + suc (length s))) {x = skip_spaces (pos + 1) s} (rw y refl) (
      subst (λ k. Leaves k (skip_spaces (pos + 1) s)) {x = (pos + 1) + length s} (omega arith)
        (skip_spaces-Leaves (pos + 1) s n.1 h.1))
  | inr m ↦ subst (Leaves (pos + suc (length s))) {x = (pos, b ∷ s)} (rw m refl) (n, h, refl, m)
]

-- A word and what is left behind it.
abbrev Splits : ℕ → ℕ → Word × ℕ × List ℕ → Type 0
Splits end size (w, q, u) =
    NoNull w × AreBytes w × NoNull u × AreBytes u × (q + length u ≡ end) × (length u ≤ size)

split_word-Splits :
    (pos : ℕ) (s : List ℕ)
    → NoNull s
    → AreBytes s
    → Splits (pos + length s) (length s) (split_word pos s)
unfolding split_word
split_word-Splits pos [] n h = (tt, tt, tt, tt, refl, omega arith)
split_word-Splits pos (b ∷ s) n h = elim (Bool-cases (is_whitespace b)) [
  | inl y ↦
      subst (Splits (pos + suc (length s)) (suc (length s))) {x = ([], pos + 1, s)} (rw y refl)
        (tt, tt, n.1, h.1, omega arith, omega arith)
  | inr m ↦
      let x = split_word (pos + 1) s in
      let (nw, hw, nu, hu, e, k) = split_word-Splits (pos + 1) s n.1 h.1 in
      subst (Splits (pos + suc (length s)) (suc (length s))) {x = (b ∷ x.0, x.1, x.2)} (rw m refl)
        ((n.0, nw), (h.0, hw), nu, hu, omega (arith, e), omega (arith, k))
]

-- The text has words, each of which the deduplication can hold.
HasWords : ℕ → List ℕ → Type 0
HasWords pos s =
    (l : List (Word × ℕ)) × WordsOf pos s l × All IsOccurrence l × (length l ≤ length s)

words_step :
    (pos : ℕ) (s : List ℕ) (p : ℕ) (t : List ℕ)
    → skip_spaces pos s ≡ (p, t)
    → Leaves (pos + length s) (p, t)
    → length t ≤ length s
    → pos + length s < 2 ^ 64
    → ((q : ℕ) (u : List ℕ) → IsPlainText q u → length u < length t → HasWords q u)
    → HasWords pos s
unfolding HasWords split_word
words_step pos s p [] e x k h more = ([], no_word (ap (λ (y : ℕ × List ℕ). y.1) e), tt, omega arith)
words_step pos s p (b ∷ t) e (n, a, m, start) k h more =
    let y = split_word (p + 1) t in
    let (nw, aw, nu, au, total, size) = split_word-Splits (p + 1) t n.1 a.1 in
    let split : split_word p (b ∷ t) ≡ (b ∷ y.0, y.1, y.2) = rw start refl in
    let (l, words, occurrences, few) =
      more y.1 y.2 (record { no_null = nu; bytes = au; small = omega (arith, total, m) })
        (omega (arith, size)) in
    (
      (b ∷ y.0, p) ∷ l,
      next_word e (λ z. cc) split words,
      (
        (record { no_null = (n.0, nw); bytes = (a.0, aw); nonempty = λ z. cc }, omega (arith, m)),
        occurrences,
      ),
      omega (arith, few, size, k),
    )

text_words : (fuel pos : ℕ) (s : List ℕ) → length s < fuel → IsPlainText pos s → HasWords pos s
text_words zero pos s h x = absurd (omega arith)
text_words (suc fuel) pos s h x =
    let y = skip_spaces pos s in
    let leaves = skip_spaces-Leaves pos s x.no_null x.bytes in
    let shorter = length-skip_spaces pos s in
    words_step pos s y.0 y.1 refl leaves shorter x.small
      (λ q u plain k. text_words fuel q u (omega (arith, k, shorter)) plain)

-- A text has its words in one way.
pub WordsOf-unique :
    {pos : ℕ} {s : List ℕ} {l m : List (Word × ℕ)} → WordsOf pos s l → WordsOf pos s m → l ≡ m
WordsOf-unique (no_word e) (no_word f) = refl
WordsOf-unique (no_word e) (next_word f ne split w) =
    absurd (ne (sym (ap (λ (x : ℕ × List ℕ). x.1) f) ∙ e))
WordsOf-unique (next_word f ne split w) (no_word e) =
    absurd (ne (sym (ap (λ (x : ℕ × List ℕ). x.1) f) ∙ e))
WordsOf-unique (next_word {p = p} {t = t} {word = word} {q = q} {u = u} {l = l} f ne split w)
      (next_word {l = m} f' ne' split' w') =
    let e = sym f ∙ f' in
    let same = sym split ∙ ap (λ (x : ℕ × List ℕ). split_word x.0 x.1) e ∙ split' in
    ap₂ (λ x y. x ∷ y) (ap₂ (λ (x : Word × ℕ × List ℕ) (y : ℕ × List ℕ). (x.0, y.0)) same e)
      (WordsOf-unique w (subst (λ (x : Word × ℕ × List ℕ). WordsOf x.1 x.2 m) (sym same) w'))

-- The words of a plain text can be inserted, and are no more than its bytes.
pub words_lem :
    (pos : ℕ) (s : List ℕ) (l : List (Word × ℕ))
    → IsPlainText pos s
    → WordsOf pos s l
    → All IsOccurrence l × (length l ≤ length s)
unfolding HasWords
words_lem pos s l x w =
    let (m, words, occurrences, few) = text_words (length s + 1) pos s (omega arith) x in
    subst (λ l. All IsOccurrence l × (length l ≤ length s)) (WordsOf-unique words w)
      (occurrences, few)

-- The loop over a segment, from a sorted deduplication and a reader that stands before any text of bytes
-- without terminators whose positions are below 2 ^ 64, with more rounds and more fuel than the
-- text has bytes, ends. The words of the text are those that were done, the one that waits for
-- the next segment if there is one, and the rest, in this order; the deduplication is sorted,
-- and its table says of every word what it said before together with the words that were
-- done. The file has ended with no word left, or the reader stands before the rest.
pub fill_segment-text :
    (rb : Rbtree) (name : Error) (sync_distance offset : ℕ) (d : TreeDedup rb) (r : Reader)
    (pos : ℕ) (s : List ℕ)
    → IsPlainText pos s
    → InText r pos s
    → IsSorted rb d
    → (l : List (Word × ℕ)) × WordsOf pos s l
      × Fills rb name sync_distance
          (length s + 1)
          (length s)
          l
          d
          (fill_segment rb name sync_distance (length s + 1) (length s + 1) offset d r)
unfolding HasWords
fill_segment-text rb name sync_distance offset d r pos s x t sorted =
    let (l, words, occurrences, few) = text_words (length s + 1) pos s (omega arith) x in
    (
      l,
      words,
      fill_segment-Fills rb name sync_distance (length s + 1) (length s + 1) offset d r pos s l
          (omega (arith, few)) (omega arith) occurrences words t sorted,
    )
