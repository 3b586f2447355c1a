-- ===== src/Bloom/Fill.antt =====
-- The bloom part of a word is the number that its first bytes spell.
use wdedup.Prelude.{
  ℕ, zero, suc, ◌+◌, ◌*◌, ◌^◌, ◌<◌, ◌≤◌, ◌≡◌, refl, ap, ap₂, ◌∙◌, [], ◌∷◌, arith, drop,
}
use native.Mathlib.Nat.{pow-suc}
use wdedup.Word.{Word, AreBytes}
use wdedup.Bloom.{fill, shift_in}

-- The number of the first `k` bytes, most significant first, with zeros behind a short word.
unfoldable pub pad : ℕ → Word → ℕ
pad zero w = 0
pad (suc k) [] = 0
pad (suc k) (b ∷ w) = b * 256 ^ k + pad k w

pub pow_pos : (k : ℕ) → 0 < 256 ^ k
pow_pos zero = omega arith
pow_pos (suc k) = omega (arith, pow-suc 256 k, pow_pos k)

pub pad-lt : (k : ℕ) (w : Word) → AreBytes w → pad k w < 256 ^ k
unfolding pad
pad-lt zero w h = omega arith
pad-lt (suc k) [] h = pow_pos (suc k)
pad-lt (suc k) (b ∷ w) h = grind (arith, pow-suc 256 k, pad-lt k w h.1, h.0)

-- Room for `k` more bytes behind `bloom`.
abbrev pub HasRoom : ℕ → ℕ → Type 0
HasRoom k bloom = suc bloom * 256 ^ k ≤ 2 ^ 64

room_step :
    (p bloom b m : ℕ)
    → 0 < p
    → b < 256
    → suc bloom * (p * 256) ≤ m
    → (bloom * 256 < m) × (suc (bloom * 256 + b) * p ≤ m)
room_step p bloom b m h k r = (grind arith, grind arith)

-- With room for one byte more nothing is lost by the shift.
pub HasRoom-shift_in :
    (k bloom b : ℕ)
    → b < 256
    → HasRoom (suc k) bloom
    → (shift_in bloom b ≡ bloom * 256 + b) × HasRoom k (bloom * 256 + b)
HasRoom-shift_in k bloom b h r =
    let (small, room) =
      room_step (256 ^ k) bloom b (2 ^ 64) (pow_pos k) h (rw (pow-suc 256 k) at r) in
    (omega arith, room)

pad-nil : (k : ℕ) → pad k [] ≡ 0
unfolding pad
pad-nil zero = refl
pad-nil (suc k) = refl

drop-nil : (k : ℕ) → ◌≡◌ {A = Word} (drop k []) []
drop-nil zero = refl
drop-nil (suc k) = refl

regroup : (bloom b p r : ℕ) → (bloom * 256 + b) * p + r ≡ bloom * (p * 256) + (b * p + r)
regroup bloom b p r = omega arith

-- The loop of `decompose` adds the number of the bytes that it takes, and leaves the others.
pub fill-pad :
    (k : ℕ) (w : Word) (bloom : ℕ)
    → AreBytes w
    → HasRoom k bloom
    → fill k w bloom ≡ (bloom * 256 ^ k + pad k w, drop k w)
unfolding fill pad
fill-pad zero w bloom h r = ap (λ n. (n, w)) (omega arith)
fill-pad (suc k) [] bloom h r =
    let (e, room) = HasRoom-shift_in k bloom 0 (omega arith) r in
    ap (fill k []) e
    ∙ fill-pad k [] (bloom * 256 + 0) tt room
    ∙ ap₂ (λ n d. (n, d))
        (rw (pow-suc 256 k, pad-nil k) (regroup bloom 0 (256 ^ k) 0 ∙ omega arith)) (drop-nil k)
fill-pad (suc k) (b ∷ w) bloom h r =
    let (e, room) = HasRoom-shift_in k bloom b h.0 r in
    ap (fill k w) e
    ∙ fill-pad k w (bloom * 256 + b) h.1 room
    ∙ ap (λ n. (n, drop k w)) (rw (pow-suc 256 k) (regroup bloom b (256 ^ k) (pad k w)))
