-- ===== src/Libc/Stdlib/Atoi.antt =====
-- `atoi` of lolibc/stdlib.c on decimal digits.

use mathlib.Core.Path.{subst}
use native.Mathlib.Nat.{add-zero}
use loos_lab.Base.{
  ℕ, zero, suc, ◌+◌, ◌-◌, ◌*◌, ◌%◌, ◌^◌, ◌≤◌, ◌<◌, ◌≡◌, refl, sym, ap, ◌∙◌, ◌≢◌, true, ◌&&◌, List,
  [], ◌∷◌, ◌++◌, arith, leb, ne→==, length, get_or, replicate,
}
use loos_lab.Base.Int.{pos}
use loos_lab.Base.Run.{done}
use loos_lab.Memory.{Mem, CStr}
use loos_lab.Libc.Stdio.{itoa_table, int_of}
use loos_lab.Libc.Stdio.Digits.{digit}
use loos_lab.Libc.Stdio.Numeral.{horner, chars, AllBelow}
use loos_lab.Libc.Stdlib.{skip_spaces, digit_loop, atoi}

-- The first `n` entries count up from `s`.
abbrev Rising : ℕ → ℕ → List ℕ → Type 0
Rising zero s xs = Unit
Rising (suc n) s [] = zero ≡ 1
Rising (suc n) s (x ∷ xs) = (x ≡ s) × Rising n (s + 1) xs

get_or-Rising : (n s d : ℕ) (xs : List ℕ) → Rising n s xs → d < n → get_or xs d 0 ≡ s + d
get_or-Rising zero s d xs r h = absurd (omega arith)
get_or-Rising (suc n) s d [] r h = absurd (omega arith)
get_or-Rising (suc n) s zero (x ∷ xs) r h = r.0 ∙ sym (add-zero s)
get_or-Rising (suc n) s (suc d) (x ∷ xs) r h =
    get_or-Rising n (s + 1) d xs r.1 (omega arith) ∙ omega arith

decimal : (d : ℕ) → d < 10 → digit d ≡ b'0' + d
decimal d h =
    get_or-Rising 10 b'0' d itoa_table
      (refl, (refl, (refl, (refl, (refl, (refl, (refl, (refl, (refl, (refl, tt)))))))))) h

horner_le : (acc : ℕ) (ds : List ℕ) → acc ≤ horner acc 10 ds
horner_le acc [] = omega arith
horner_le acc (d ∷ ds) = omega (arith, horner_le (acc * 10 + d) ds)

digit_loop-chars :
    (fuel : ℕ) (m : Mem) (p x : ℕ) (ds : List ℕ)
    → CStr m p (chars ds)
    → AllBelow 10 ds
    → horner x 10 ds < 2 ^ 31
    → length ds < fuel
    → digit_loop fuel m p x ≡ done (horner x 10 ds)
unfolding digit_loop
digit_loop-chars zero m p x ds s a b h = absurd (omega arith)
digit_loop-chars (suc f) m p x [] s a b h = rw s refl
digit_loop-chars (suc f) m p x (d ∷ ds) s a b h =
    let c : m p ≡ b'0' + d = s.0 ∙ decimal d a.0 in
    let small = horner_le (x * 10 + d) ds in
    let stay : (leb b'0' (m p) && leb (m p) b'9') ≡ true = ground (arith, c, a.0) in
    let value : (x * 10 + m p - b'0') % 2 ^ 32 ≡ x * 10 + d = omega (arith, c, small) in
    rw (stay, value) (digit_loop-chars f m (p + 1) (x * 10 + d) ds s.2 a.1 b (omega arith))

no_space : (m : Mem) (p : ℕ) (ds : List ℕ) → CStr m p (chars ds) → AllBelow 10 ds → m p ≢ b' '
no_space m p [] s a = omega (arith, s)
no_space m p (d ∷ ds) s a = omega (arith, s.0, decimal d a.0)

skip_spaces_lem :
    (fuel : ℕ) (m : Mem) (p n : ℕ) (ds : List ℕ)
    → CStr m p (replicate n b' ' ++ chars ds)
    → AllBelow 10 ds
    → n < fuel
    → (skip_spaces fuel m p ≡ done (p + n)) × CStr m (p + n) (chars ds)
unfolding skip_spaces
skip_spaces_lem zero m p n ds s a h = absurd (omega arith)
skip_spaces_lem (suc f) m p zero ds s a h = (
  rw (ne→== (m p) b' ' (no_space m p ds s a)) (ap (λ k. done k) (sym (add-zero p))),
  subst (λ k. CStr m k (chars ds)) (sym (add-zero p)) s,
)
skip_spaces_lem (suc f) m p (suc n) ds s a h =
    let (eq, next) = skip_spaces_lem f m (p + 1) n ds s.2 a (omega arith) in
    (
      rw s.0 (eq ∙ ap (λ k. done k) (omega arith)),
      subst (λ k. CStr m k (chars ds)) (omega arith) next,
    )

-- `atoi` on spaces and then the decimal digits of a number below 2 ^ 31, of which there may be none, answers the
-- number.
pub atoi-chars :
    (fuel : ℕ) (m : Mem) (p n : ℕ) (ds : List ℕ)
    → CStr m p (replicate n b' ' ++ chars ds)
    → AllBelow 10 ds
    → horner 0 10 ds < 2 ^ 31
    → n + length ds < fuel
    → atoi fuel m p ≡ done (pos (horner 0 10 ds))
unfolding atoi
atoi-chars fuel m p n ds s a b h =
    let (eq, next) = skip_spaces_lem fuel m p n ds s a (omega arith) in
    rw (eq, digit_loop-chars fuel m (p + n) 0 ds next a b (omega arith))
      (ap (λ k. done k) (int_of_small (horner 0 10 ds) b))
  where
    int_of_small : (v : ℕ) → v < 2 ^ 31 → int_of v ≡ pos v
    int_of_small v h = ground arith
