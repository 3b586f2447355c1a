-- ===== src/Tables.antt =====
-- src/wmerge.cpp, the three loops that merge two open profiles into a third.
pub mod Laws
pub mod Size
use wdedup.Prelude.{true, false, [], ◌∷◌}
use wdedup.Word.{word_lt}
use wdedup.Profile.{Profile, push, repeated_item}

-- The loop that runs while both inputs have items: what is left of the inputs, and the output.
merge_heads : Profile → Profile → Profile → Profile × Profile × Profile
merge_heads [] right out = ([], right, out)
merge_heads (x ∷ left) [] out = (x ∷ left, [], out)
merge_heads (x ∷ left) (y ∷ right) out = elim (word_lt x.word y.word) [
  | true ↦ merge_heads left (y ∷ right) (push out x)
  | false ↦ elim (word_lt y.word x.word) [
    | true ↦ merge_heads (x ∷ left) right (push out y)
    | false ↦ merge_heads left right (push out (repeated_item x.word))
  ]
]

-- A loop that finishes one input up.
drain : Profile → Profile → Profile
drain [] out = out
drain (x ∷ rest) out = drain rest (push out x)

-- The three loops in order, from an output that holds `out` already.
unfoldable pub merge_into : Profile → Profile → Profile → Profile
unfolding merge_heads drain push
merge_into left right out = let (l, r, o) = merge_heads left right out in drain r (drain l o)
