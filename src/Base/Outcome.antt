-- ===== src/Base/Outcome.antt =====
-- What a piece of C code can do: return, end the process, or leave what C defines.
use Prim.Native.Nat.{ℕ}
use mathlib.Core.Path.{◌≡◌}

-- `done` is a normal return. `exited` is a call of `exit` with its status, `aborted` a failed
-- `assert`, and `fault` undefined behaviour: a read or write through a bad pointer or index.
-- `out_of_fuel` is a loop or recursion that the fuel of the model did not finish.
pub data Outcome {ℓ} (A : Type ℓ) : Type ℓ where
  done : A → Outcome A
  exited : ℕ → Outcome A
  aborted : Outcome A
  fault : Outcome A
  out_of_fuel : Outcome A

abbrev pub bind {ℓ κ} : {A : Type ℓ} {B : Type κ} → Outcome A → (A → Outcome B) → Outcome B
bind (done a) f = f a
bind (exited c) f = exited c
bind aborted f = aborted
bind fault f = fault
bind out_of_fuel f = out_of_fuel

infixl 5 ◌>>=◌ ◌>>◌
abbrev pub ◌>>=◌ {ℓ κ} : {A : Type ℓ} {B : Type κ} → Outcome A → (A → Outcome B) → Outcome B
m >>= f = bind m f

abbrev pub ◌>>◌ {ℓ κ} : {A : Type ℓ} {B : Type κ} → Outcome A → Outcome B → Outcome B
m >> k = bind m λ _. k

pub done-injective {ℓ} : {A : Type ℓ} {a b : A} → done a ≡ done b → a ≡ b
done-injective e = cc
