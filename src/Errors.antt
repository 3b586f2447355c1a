-- ===== src/Errors.antt =====
-- wtypes.hpp: the error that the stages throw, and the outcome of a call that may throw it.
use wdedup.Prelude.{ℕ, ◌≡◌, refl}
use wdedup.Word.{Word}

-- `wdedup::Error`.
pub record Error : Type 0 where
  pub eno : ℕ
  pub path : Word
  pub role : Word

-- `ok` returns, `err` throws, `fault` is undefined behaviour (a write out of bounds), a failed
-- assertion or an exception that nothing catches, and `stuck` says that the fuel of a loop ran out.
pub data Result {ℓ} (A : Type ℓ) : Type ℓ where
  ok : A → Result A
  err : Error → Result A
  fault : Result A
  stuck : Result A

infixl 5 ◌>>=◌
-- What follows a call happens only if the call returns.
abbrev pub ◌>>=◌ {ℓ κ} :
    {Value : Type ℓ} {Next : Type κ} (call : Result Value) (next : Value → Result Next)
    → Result Next
fault >>= next = fault
stuck >>= next = stuck
err thrown >>= next = err thrown
ok value >>= next = next value

pub bind_assoc {ℓ κ μ} :
    {A : Type ℓ} {B : Type κ} {C : Type μ} (m : Result A) (f : A → Result B) (g : B → Result C)
    → (m >>= f >>= g) ≡ (m >>= λ a. f a >>= g)
bind_assoc (ok a) f g = refl
bind_assoc (err e) f g = refl
bind_assoc fault f g = refl
bind_assoc stuck f g = refl

-- errno values of Linux that the code names or that the calls of the model give.
abbrev pub enoent : ℕ
enoent = 2

abbrev pub eio : ℕ
eio = 5

abbrev pub eisdir : ℕ
eisdir = 21
