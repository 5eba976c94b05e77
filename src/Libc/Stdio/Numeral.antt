-- ===== src/Libc/Stdio/Numeral.antt =====
-- `_uitoa` of lolibc/stdio.c: the digits that its first loop writes.

use native.Mathlib.Nat.{add-zero}
use loos_lab.Base.{
  ℕ, zero, suc, ◌+◌, ◌*◌, ◌/◌, ◌%◌, ◌<◌, ◌≡◌, refl, ap, ◌∙◌, ◌≢◌, inl, inr, List, [], ◌∷◌, ◌++◌,
  map, arith, ◌==◌, if◌then◌else◌, Bool-cases, length, get_or, length-append,
}
use loos_lab.Base.Run.{done}
use loos_lab.Memory.{Mem, put}
use loos_lab.Libc.Stdio.{put_digits, put_list}
use loos_lab.Libc.Stdio.Digits.{IsRadix, digit, ten, sixteen}

-- The digits of a number, the least one first, over `f` rounds.
unfoldable pub digits : ℕ → (value radix : ℕ) → List ℕ
digits zero value radix = []
digits (suc f) value radix =
    let rest = digits f (value / radix) radix in if value == 0 then [] else (value % radix ∷ rest)

abbrev pub rev : List ℕ → List ℕ
rev [] = []
rev (x ∷ xs) = rev xs ++ (x ∷ [])

-- The value of digits, the greatest one first, behind those of `acc`.
abbrev pub horner : (acc radix : ℕ) → List ℕ → ℕ
horner acc radix [] = acc
horner acc radix (d ∷ ds) = horner (acc * radix + d) radix ds

abbrev pub chars : List ℕ → List ℕ
chars ds = map digit ds

abbrev pub AllBelow : ℕ → List ℕ → Type 0
AllBelow r [] = Unit
AllBelow r (d ∷ ds) = (d < r) × AllBelow r ds

smaller : {r : ℕ} (R : IsRadix r) (v : ℕ) → v ≢ 0 → v / r < v
smaller ten v h = omega arith
smaller sixteen v h = omega arith

mod_lt : {r : ℕ} (R : IsRadix r) (v : ℕ) → v % r < r
mod_lt ten v = omega arith
mod_lt sixteen v = omega arith

divmod : {r : ℕ} (R : IsRadix r) (v : ℕ) → v / r * r + v % r ≡ v
divmod ten v = omega arith
divmod sixteen v = omega arith

horner-append :
    (acc r d : ℕ) (ds : List ℕ) → horner acc r (ds ++ (d ∷ [])) ≡ horner acc r ds * r + d
horner-append acc r d [] = refl
horner-append acc r d (x ∷ ds) = horner-append (acc * r + x) r d ds

AllBelow-append : (r d : ℕ) (ds : List ℕ) → AllBelow r ds → d < r → AllBelow r (ds ++ (d ∷ []))
AllBelow-append r d [] a h = (h, tt)
AllBelow-append r d (x ∷ ds) a h = (a.0, AllBelow-append r d ds a.1 h)

pub put_digits_lem :
    {r : ℕ} (R : IsRadix r) (f : ℕ) (m : Mem) (v dst : ℕ)
    → v < f
    → put_digits f m v dst r
      ≡ done (dst + length (digits f v r), put_list m dst (chars (digits f v r)))
unfolding put_digits digits
put_digits_lem R zero m v dst h = absurd (omega arith)
put_digits_lem {r} R (suc f) m v dst h = elim (Bool-cases (v == 0)) [
  | inl e ↦ rw (e, add-zero dst) refl
  | inr e ↦
      rw
        (
          e,
          put_digits_lem R f (put m dst (digit (v % r))) (v / r) (dst + 1)
              (ground (arith, smaller R v)),
        )
        (ap
          (λ k.
            done (k, put_list (put m dst (digit (v % r))) (dst + 1) (chars (digits f (v / r) r))))
          (omega arith))
]

pub horner-digits : {r : ℕ} (R : IsRadix r) (f v : ℕ) → v < f → horner 0 r (rev (digits f v r)) ≡ v
unfolding digits
horner-digits R zero v h = absurd (omega arith)
horner-digits {r} R (suc f) v h = elim (Bool-cases (v == 0)) [
  | inl e ↦ rw e (ground arith)
  | inr e ↦
      rw
        (
          e,
          horner-append 0 r (v % r) (rev (digits f (v / r) r)),
          horner-digits R f (v / r) (ground (arith, smaller R v)),
        )
        (divmod R v)
]

pub AllBelow-digits : {r : ℕ} (R : IsRadix r) (f v : ℕ) → AllBelow r (rev (digits f v r))
unfolding digits
AllBelow-digits R zero v = tt
AllBelow-digits {r} R (suc f) v = elim (Bool-cases (v == 0)) [
  | inl e ↦ rw e tt
  | inr e ↦ rw e (
      AllBelow-append r (v % r) (rev (digits f (v / r) r)) (AllBelow-digits R f (v / r))
        (mod_lt R v))
]

pub length-rev : (xs : List ℕ) → length (rev xs) ≡ length xs
length-rev [] = refl
length-rev (x ∷ xs) = omega (arith, length-append (rev xs) (x ∷ []), length-rev xs)

get_or-append_left :
    (xs : List ℕ) (y i : ℕ) → i < length xs → get_or (xs ++ (y ∷ [])) i 0 ≡ get_or xs i 0
get_or-append_left [] y i h = absurd (omega arith)
get_or-append_left (x ∷ xs) y zero h = refl
get_or-append_left (x ∷ xs) y (suc i) h = get_or-append_left xs y i (omega arith)

get_or-append_last : (xs : List ℕ) (y : ℕ) → get_or (xs ++ (y ∷ [])) (length xs) 0 ≡ y
get_or-append_last [] y = refl
get_or-append_last (x ∷ xs) y = get_or-append_last xs y

pub get_or-rev :
    (xs : List ℕ) (i j : ℕ) → i + suc j ≡ length xs → get_or (rev xs) i 0 ≡ get_or xs j 0
get_or-rev [] i j h = absurd (omega arith)
get_or-rev (x ∷ xs) i zero h =
    ap (λ k. get_or (rev xs ++ (x ∷ [])) k 0) (omega (arith, length-rev xs))
    ∙ get_or-append_last (rev xs) x
get_or-rev (x ∷ xs) i (suc j) h =
    get_or-append_left (rev xs) x i (omega (arith, length-rev xs)) ∙ get_or-rev xs i j (omega arith)
