-- ===== src/Base/Run.antt =====
-- How a call of kernel code ends: it returns, or `panic` and a failed `assert` halt the machine.
-- `out_of_fuel` is an answer of the model alone: a loop was given too few rounds.
use mathlib.Core.Path.{}
use mathlib.Core.Bool.{Bool, true, false}

pub data Run {ℓ} (A : Type ℓ) : Type ℓ where
  done : A → Run A
  halted : Run A
  out_of_fuel : Run A

infixl 5 ◌>>=◌ ◌>>◌
abbrev pub ◌>>=◌ {ℓ κ} : {A : Type ℓ} {B : Type κ} → Run A → (A → Run B) → Run B
done a >>= f = f a
halted >>= f = halted
out_of_fuel >>= f = out_of_fuel

abbrev pub ◌>>◌ {ℓ} : {B : Type ℓ} → Run (Unit {0}) → Run B → Run B
m >> k = m >>= λ _. k

-- `assert(b)`, and `if (!b) panic(...)`
abbrev pub assert : Bool → Run (Unit {0})
assert true = done tt
assert false = halted
