-- ===== src/Libc/Stdio/Reading.antt =====
-- `_uatoi` of lolibc/stdio.c on the characters of digits.

use native.Mathlib.Nat.{add-zero}
use loos_lab.Base.{
  ℕ, zero, suc, ◌+◌, ◌*◌, ◌%◌, ◌^◌, ◌≤◌, ◌<◌, ◌≡◌, refl, sym, ap, ◌∙◌, List, [], ◌∷◌, arith, length,
  get_or,
}
use loos_lab.Base.Run.{Run, done}
use loos_lab.Base.Int.{ℤ, pos, negsuc}
use loos_lab.Memory.{Mem, CStr}
use loos_lab.Libc.Stdio.{get_itoa_table_index, to_upper, read_digits, uatoi}
use loos_lab.Libc.Stdio.Digits.{
  IsRadix, digit, digit_ne, get_itoa_table_index-digit, get_itoa_table_index_end, ten, sixteen,
}
use loos_lab.Libc.Stdio.Numeral.{horner, chars, AllBelow}

pub get_or-chars :
    (ds : List ℕ) (i : ℕ) → i < length ds → get_or (chars ds) i 0 ≡ digit (get_or ds i 0)
get_or-chars [] i h = absurd (omega arith)
get_or-chars (d ∷ ds) zero h = refl
get_or-chars (d ∷ ds) (suc i) h = get_or-chars ds i (omega arith)

pub length-chars : (ds : List ℕ) → length (chars ds) ≡ length ds
length-chars [] = refl
length-chars (d ∷ ds) = ap suc (length-chars ds)

radix_le : {r : ℕ} (R : IsRadix r) → r ≤ 16
radix_le ten = omega arith
radix_le sixteen = omega arith

pub CStr-chars :
    {r : ℕ} (R : IsRadix r) (m : Mem) (s : ℕ) (ds : List ℕ)
    → AllBelow r ds
    → ((i : ℕ) → i < length ds → m (s + i) ≡ digit (get_or ds i 0))
    → m (s + length ds) ≡ 0
    → CStr m s (chars ds)
CStr-chars R m s [] a h t = ap m (sym (add-zero s)) ∙ t
CStr-chars R m s (d ∷ ds) a h t = (
  ap m (sym (add-zero s)) ∙ h 0 (omega arith),
  digit_ne d (omega (arith, radix_le R)),
  CStr-chars R m (s + 1) ds a.1 (λ i lt. ap m (omega arith) ∙ h (suc i) (omega arith))
      (ap m (omega arith) ∙ t),
)

horner_le : {r : ℕ} (R : IsRadix r) (acc : ℕ) (ds : List ℕ) → acc ≤ horner acc r ds
horner_le R acc [] = omega arith
horner_le ten acc (d ∷ ds) = omega (arith, horner_le ten (acc * 10 + d) ds)
horner_le sixteen acc (d ∷ ds) = omega (arith, horner_le sixteen (acc * 16 + d) ds)

wrap : (a d : ℕ) → a + d < 2 ^ 64 → (a % 2 ^ 64 + d) % 2 ^ 64 ≡ a + d
wrap a d h = omega arith

-- One round of the loop, by the answer of the search.
continue : ℕ → Mem → (s radix value : ℕ) → ℤ → Run (ℕ × ℕ)
continue f m s radix value (pos d) =
    read_digits f m (s + 1) radix ((value * radix % 2 ^ 64 + d) % 2 ^ 64)
continue f m s radix value (negsuc n) = done (value, s)

read_digits_step :
    (f : ℕ) (m : Mem) (s radix value : ℕ)
    → read_digits (suc f) m s radix value
      ≡ continue f m s radix value (get_itoa_table_index (to_upper (m s)) radix)
unfolding read_digits continue
read_digits_step f m s radix value = elim (get_itoa_table_index (to_upper (m s)) radix) [
  | pos d ↦ refl
  | negsuc n ↦ refl
]

found :
    {r : ℕ} (R : IsRadix r) (m : Mem) (s d : ℕ)
    → m s ≡ digit d
    → d < r
    → get_itoa_table_index (to_upper (m s)) r ≡ pos d
found {r} R m s d e h =
    ap (λ c. get_itoa_table_index (to_upper c) r) e ∙ get_itoa_table_index-digit R d h

-- The digits at `s` are read to the terminator, if their value fits into 64 bits.
read_digits-CStr :
    {r : ℕ} (R : IsRadix r) (f : ℕ) (m : Mem) (s acc : ℕ) (ds : List ℕ)
    → CStr m s (chars ds)
    → AllBelow r ds
    → horner acc r ds < 2 ^ 64
    → length ds < f
    → read_digits f m s r acc ≡ done (horner acc r ds, s + length ds)
unfolding continue
read_digits-CStr R zero m s acc ds c a b h = absurd (omega arith)
read_digits-CStr {r} R (suc f) m s acc [] c a b h =
    read_digits_step f m s r acc
    ∙ ap (continue f m s r acc)
        (ap (λ k. get_itoa_table_index (to_upper k) r) c ∙ get_itoa_table_index_end R)
    ∙ ap (λ k. done (acc, k)) (omega arith)
read_digits-CStr {r} R (suc f) m s acc (d ∷ ds) c a b h =
    let fits : acc * r + d < 2 ^ 64 = omega (arith, horner_le R (acc * r + d) ds) in
    read_digits_step f m s r acc
    ∙ ap (continue f m s r acc) (found R m s d c.0 a.0)
    ∙ ap (read_digits f m (s + 1) r) (wrap (acc * r) d fits)
    ∙ read_digits-CStr R f m (s + 1) (acc * r + d) ds c.2 a.1 b (omega arith)
    ∙ ap (λ k. done (horner (acc * r + d) r ds, k)) (omega arith)

pub uatoi-CStr :
    {r : ℕ} (R : IsRadix r) (f : ℕ) (m : Mem) (s : ℕ) (ds : List ℕ)
    → CStr m s (chars ds)
    → AllBelow r ds
    → horner 0 r ds < 2 ^ 64
    → length ds < f
    → uatoi f m s r ≡ done (length ds, horner 0 r ds)
unfolding uatoi
uatoi-CStr ten f m s ds c a b h =
    rw (read_digits-CStr ten f m s 0 ds c a b h) (ap (λ k. done (k, horner 0 10 ds)) (omega arith))
uatoi-CStr sixteen f m s ds c a b h =
    rw (read_digits-CStr sixteen f m s 0 ds c a b h)
      (ap (λ k. done (k, horner 0 16 ds)) (omega arith))
