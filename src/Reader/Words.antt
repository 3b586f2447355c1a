-- ===== src/Reader/Words.antt =====
-- The words of a stream, and the reader of words as their source.
use wdedup.Prelude.{
  ℕ, zero, suc, ◌+◌, ◌≡◌, refl, sym, ap, ap₂, ◌∙◌, true, false, List, [], ◌∷◌, ◌++◌, if◌then◌else◌,
  length, set, take, drop, arith, All, append-nil,
}
use wdedup.Word.{Word}
use wdedup.Reader.{is_whitespace}

-- The word at the start of a stream, and the stream behind the whitespace that ends it, with its position.
unfoldable pub split_word : ℕ → List ℕ → Word × ℕ × List ℕ
split_word pos [] = ([], pos, [])
split_word pos (b ∷ s) =
    let (word, p, rest) = split_word (pos + 1) s in
    if is_whitespace b then ([], pos + 1, s) else (b ∷ word, p, rest)

abbrev pub prepend : Word → Word × ℕ × List ℕ → Word × ℕ × List ℕ
prepend w x = (w ++ x.0, x.1, x.2)

pub split-append :
    (w : Word) (pos : ℕ) (t : List ℕ)
    → All (λ b. is_whitespace b ≡ false) w
    → split_word pos (w ++ t) ≡ prepend w (split_word (pos + length w) t)
unfolding split_word
split-append [] pos t h = ap (λ p. split_word p t) (omega arith)
split-append (b ∷ w) pos t h =
    let next : pos + suc (length w) ≡ (pos + 1) + length w = omega arith in
    ground (arith, h.0, split-append w (pos + 1) t h.1, next)

pub split-found :
    (w : Word) (b : ℕ) (t : List ℕ) (pos : ℕ)
    → All (λ c. is_whitespace c ≡ false) w
    → is_whitespace b ≡ true
    → split_word pos (w ++ b ∷ t) ≡ (w, pos + (length w + 1), t)
unfolding split_word
split-found w b t pos h y =
    split-append w pos (b ∷ t) h
    ∙ ap (prepend w) {x = split_word (pos + length w) (b ∷ t)} {y = ([], (pos + length w) + 1, t)}
        (ground (arith, y))
    ∙ ap₂ (λ u (p : ℕ). (u, p, t)) (append-nil w) (omega arith)

pub split-whole :
    (w : Word) (pos : ℕ)
    → All (λ c. is_whitespace c ≡ false) w
    → split_word pos w ≡ (w, pos + length w, [])
unfolding split_word
split-whole w pos h =
    ap (split_word pos) (sym (append-nil w))
    ∙ split-append w pos [] h
    ∙ ap (λ u. (u, pos + length w, [])) (append-nil w)

pub take_exact : (w l : List ℕ) → take (length w) (w ++ l) ≡ w
take_exact [] l = refl
take_exact (b ∷ w) l = ap (◌∷◌ b) (take_exact w l)

pub drop_next : (w : List ℕ) (b : ℕ) (l : List ℕ) → drop (length w + 1) (w ++ b ∷ l) ≡ l
drop_next [] b l = refl
drop_next (c ∷ w) b l =
    ap (λ n. drop n (c ∷ w ++ b ∷ l)) {x = suc (length w) + 1} {y = suc (length w + 1)}
      (omega arith)
    ∙ drop_next w b l

pub set_exact : (w : List ℕ) (b c : ℕ) (l : List ℕ) → set (w ++ b ∷ l) (length w) c ≡ w ++ c ∷ l
set_exact [] b c l = refl
set_exact (x ∷ w) b c l = ap (◌∷◌ x) (set_exact w b c l)

pub drop-set : (n i : ℕ) (l : List ℕ) (c : ℕ) → drop n (set l (n + i) c) ≡ set (drop n l) i c
drop-set zero i l c = ap (λ k. set l k c) {x = 0 + i} {y = i} (omega arith)
drop-set (suc n) i [] c = refl
drop-set (suc n) i (x ∷ l) c =
    ap (λ k. drop (suc n) (set (x ∷ l) k c)) {x = suc n + i} {y = suc (n + i)} (omega arith)
    ∙ drop-set n i l c
