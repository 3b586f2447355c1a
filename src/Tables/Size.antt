-- ===== src/Tables/Size.antt =====
-- A merged table takes no more bytes than the two tables.
use wdedup.Prelude.{◌+◌, ◌≤◌, ap, [], ◌∷◌, arith}
use wdedup.Profile.{Profile, repeated_item}
use wdedup.ProfileFile.Size.{table_size, table_size-cons, repeated_size}
use wdedup.Tables.{merge_into}
use wdedup.Tables.Laws.{interleave, interleave_cases, merge_into-interleave}

interleave_size : (l r : Profile) → table_size (interleave l r) ≤ table_size l + table_size r
unfolding interleave
interleave_size [] r = omega arith
interleave_size (x ∷ l) [] = omega arith
interleave_size (x ∷ l) (y ∷ r) =
    let a = table_size-cons x l in
    let b = table_size-cons y r in
    interleave_cases (λ p. table_size p ≤ table_size (x ∷ l) + table_size (y ∷ r)) x y l r
      (λ _. omega (arith, a, table_size-cons x (interleave l (y ∷ r)), interleave_size l (y ∷ r)))
      (λ _. omega (arith, b, table_size-cons y (interleave (x ∷ l) r), interleave_size (x ∷ l) r))
      (λ _. omega (
        arith,
        a,
        b,
        repeated_size x,
        table_size-cons (repeated_item x.word) (interleave l r),
        interleave_size l r,
      ))

pub merge_into_size : (l r : Profile) → table_size (merge_into l r []) ≤ table_size l + table_size r
merge_into_size l r =
    omega (arith, ap table_size (merge_into-interleave l r []), interleave_size l r)
