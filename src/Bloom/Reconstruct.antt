-- ===== src/Bloom/Reconstruct.antt =====
-- A decomposed word is reconstructed.
use wdedup.Prelude.{
  ℕ, zero, suc, ◌+◌, ◌*◌, ◌<◌, ◌≡◌, refl, ap, ap₂, ◌∙◌, [], ◌∷◌, ◌++◌, arith, drop, take,
  take-append-drop, none, some, Option, append-nil,
}
use wdedup.Word.{c_str, Word, AreBytes, NoNull}
use wdedup.Bloom.{fill, pool_of, decompose, unpack, reconstruct}
use wdedup.Bloom.Fill.{HasRoom, HasRoom-shift_in, fill-pad}
use wdedup.Bloom.Order.{c_str_whole}

-- The first `k` bytes, with zeros behind a short word.
padded : ℕ → Word → Word
padded zero w = []
padded (suc k) [] = 0 ∷ padded k []
padded (suc k) (b ∷ w) = b ∷ padded k w

unpack_step :
    (j bloom b : ℕ) (bytes : Word)
    → b < 256
    → unpack (suc j) (bloom * 256 + b) bytes ≡ unpack j bloom (b ∷ bytes)
unfolding unpack
unpack_step j bloom b bytes h = ap₂ (λ n c. unpack j n (c ∷ bytes)) (omega arith) (omega arith)

-- Taking the bytes out of the bloom part undoes the loop that put them in.
unpack-fill :
    (k j n bloom : ℕ) (w bytes : Word)
    → n ≡ k + j
    → AreBytes w
    → HasRoom k bloom
    → unpack n (fill k w bloom).0 bytes ≡ unpack j bloom (padded k w ++ bytes)
unfolding fill padded
unpack-fill zero j n bloom w bytes e h r = ap (λ m. unpack m bloom bytes) (e ∙ omega arith)
unpack-fill (suc k) j n bloom [] bytes e h r =
    let (f, room) = HasRoom-shift_in k bloom 0 (omega arith) r in
    ap (λ m. unpack n (fill k [] m).0 bytes) f
    ∙ unpack-fill k (suc j) n (bloom * 256 + 0) [] bytes (omega arith) tt room
    ∙ unpack_step j bloom 0 _ (omega arith)
unpack-fill (suc k) j n bloom (b ∷ w) bytes e h r =
    let (f, room) = HasRoom-shift_in k bloom b h.0 r in
    ap (λ m. unpack n (fill k w m).0 bytes) f
    ∙ unpack-fill k (suc j) n (bloom * 256 + b) w bytes (omega arith) h.1 room
    ∙ unpack_step j bloom b _ h.0

c_str-padded : (k : ℕ) (w : Word) → NoNull w → c_str (padded k w) ≡ take k w
unfolding c_str padded
c_str-padded zero w h = refl
c_str-padded (suc k) [] h = refl
c_str-padded (suc k) (b ∷ w) h = ground (arith, c_str-padded k w h.1)

NoNull-drop : (k : ℕ) (w : Word) → NoNull w → NoNull (drop k w)
NoNull-drop zero w h = h
NoNull-drop (suc k) [] h = tt
NoNull-drop (suc k) (b ∷ w) h = NoNull-drop k w h.1

-- What the pool adds.
abbrev pool_str : Option Word → Word
pool_str p = elim p [ none ↦ [] | some q ↦ c_str q ]

pool_str-pool_of : (w : Word) → NoNull w → pool_str (pool_of w) ≡ w
pool_str-pool_of [] h = refl
pool_str-pool_of (b ∷ w) h = c_str_whole (b ∷ w) h

-- `reconstruct` undoes `decompose` on a word of bytes without the terminator.
pub reconstruct-decompose : (w : Word) → NoNull w → AreBytes w → reconstruct (decompose w).0 ≡ w
unfolding reconstruct decompose
reconstruct-decompose w n h =
    ap₂ (λ u v. c_str u ++ pool_str (pool_of v)) first
      (ap (λ (p : ℕ × Word). p.1) (fill-pad 8 w 0 h (omega arith)))
    ∙ ap₂ ◌++◌ (c_str-padded 8 w n) (pool_str-pool_of (drop 8 w) (NoNull-drop 8 w n))
    ∙ take-append-drop 8 w
  where
    first : unpack 8 (fill 8 w 0).0 [] ≡ padded 8 w
    first = unpack-fill 8 0 8 0 w [] (omega arith) h (omega arith) ∙ append-nil (padded 8 w)
