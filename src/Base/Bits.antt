-- ===== src/Base/Bits.antt =====
-- `|` of words, field by field, and the remainder by twice a number.
use Prim.Native.Nat.{max, digits, bit_or-bitwise}
use native.Mathlib.Nat.{le_refl, pow-suc, one-le-pow, div-div-eq-div-mul, mul_comm}
use native.Mathlib.Nat.{add-mul-mod_self_left, mod-eq_of_lt, mod-lt, div-add-mod, mod-one, div-one}
use mathlib.Core.Path.{◌≡◌, refl, sym, ◌∙◌, ap, ap₂}
use Prim.Native.Nat.{ℕ, zero, suc, ◌+◌, ◌*◌, ◌/◌, ◌%◌, ◌^◌, ◌≤◌, ◌<◌, bit_or}
use native.Mathlib.Omega.{arith}

-- `bit_or` stands for a recursion on digits that counts down fuel; any fuel from `a` on will do.
abbrev or_digits : ℕ → ℕ → ℕ → ℕ
or_digits = digits (λ b. b) max

or_digits-fuel : (a b k l : ℕ) → a ≤ k → a ≤ l → or_digits k a b ≡ or_digits l a b
or_digits-fuel zero b zero zero hk hl = refl
or_digits-fuel zero b zero (suc l) hk hl = refl
or_digits-fuel zero b (suc k) zero hk hl = refl
or_digits-fuel zero b (suc k) (suc l) hk hl = refl
or_digits-fuel (suc a) b zero l hk hl = absurd (omega arith)
or_digits-fuel (suc a) b (suc k) zero hk hl = absurd (omega arith)
or_digits-fuel (suc a) b (suc k) (suc l) hk hl =
    omega (arith, or_digits-fuel (suc a / 2) (b / 2) k l (omega arith) (omega arith))

or_unfold : (a b : ℕ) → bit_or a b ≡ bit_or (a / 2) (b / 2) * 2 + max (a % 2) (b % 2)
or_unfold zero b = omega (arith, bit_or-bitwise 0 b, bit_or-bitwise 0 (b / 2))
or_unfold (suc a) b = omega (
  arith,
  bit_or-bitwise (suc a) b,
  bit_or-bitwise (suc a / 2) (b / 2),
  or_digits-fuel (suc a / 2) (b / 2) a (suc a / 2) (omega arith) (omega arith),
)

-- The lowest digit of `a | b`, and the rest.
pub bit_or-halves :
    (a b : ℕ) → (bit_or a b / 2 ≡ bit_or (a / 2) (b / 2)) × (bit_or a b % 2 ≡ max (a % 2) (b % 2))
bit_or-halves a b = omega (arith, or_unfold a b)

-- `|` goes under a shift to the right.
pub bit_or-div : (k a b : ℕ) → bit_or a b / 2 ^ k ≡ bit_or (a / 2 ^ k) (b / 2 ^ k)
bit_or-div zero a b = rw (div-one, div-one, div-one)
bit_or-div (suc k) a b =
    shift (bit_or a b)
    ∙ ap (λ (x : ℕ). x / 2 ^ k) (bit_or-halves a b).0
    ∙ bit_or-div k (a / 2) (b / 2)
    ∙ ap₂ bit_or (sym (shift a)) (sym (shift b))
  where
    shift : (x : ℕ) → x / 2 ^ suc k ≡ x / 2 / 2 ^ k
    shift x = rw (pow-suc 2 k, mul_comm (2 ^ k) 2) (sym (div-div-eq-div-mul x 2 (2 ^ k)))

mod-double : (p x : ℕ) → 0 < p → x % (2 * p) ≡ x / 2 % p * 2 + x % 2
mod-double p x h =
    ap (λ (y : ℕ). y % (2 * p)) split
    ∙ add-mul-mod_self_left (x / 2 % p * 2 + x % 2) (2 * p) (x / 2 / p)
    ∙ mod-eq_of_lt (omega (arith, mod-lt (x / 2) h))
  where
    split : x ≡ x / 2 % p * 2 + x % 2 + 2 * p * (x / 2 / p)
    split = omega (arith, div-add-mod (x / 2) p)

-- `|` goes under a mask of the low bits.
pub bit_or-mod : (k a b : ℕ) → bit_or a b % 2 ^ k ≡ bit_or (a % 2 ^ k) (b % 2 ^ k)
bit_or-mod zero a b = rw (mod-one, mod-one, mod-one)
bit_or-mod (suc k) a b = omega (
  arith,
  double (bit_or a b),
  double a,
  double b,
  bit_or-halves a b,
  ap (λ (x : ℕ). x % 2 ^ k) (bit_or-halves a b).0,
  bit_or-mod k (a / 2) (b / 2),
  or_unfold (a % 2 ^ suc k) (b % 2 ^ suc k),
  ap₂ bit_or (halve a) (halve b),
)
  where
    double : (x : ℕ) → x % 2 ^ suc k ≡ x / 2 % 2 ^ k * 2 + x % 2
    double x =
        rw (pow-suc 2 k, mul_comm (2 ^ k) 2) (mod-double (2 ^ k) x (one-le-pow k 2 (omega arith)))

    halve : (x : ℕ) → x % 2 ^ suc k / 2 ≡ x / 2 % 2 ^ k
    halve x = omega (arith, double x)

or_zero : (f a : ℕ) → a ≤ f → bit_or a 0 ≡ a
or_zero zero zero h = refl
or_zero zero (suc a) h = absurd (omega arith)
or_zero (suc f) zero h = refl
or_zero (suc f) (suc a) h = omega (arith, or_unfold (suc a) 0, or_zero f (suc a / 2) (omega arith))

pub bit_or-zero : (a : ℕ) → bit_or a 0 ≡ a
bit_or-zero a = or_zero a a (le_refl a)

pub zero-bit_or : (a : ℕ) → bit_or 0 a ≡ a
zero-bit_or a = bit_or-bitwise 0 a
