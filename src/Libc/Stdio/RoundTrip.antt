-- ===== src/Libc/Stdio/RoundTrip.antt =====
-- `_uitoa` and `_uatoi` of lolibc/stdio.c together: a number that is written is read back.

use native.Mathlib.Nat.{}
use loos_lab.Base.{
  ℕ, zero, suc, ◌+◌, ◌-◌, ◌^◌, ◌<◌, ◌≡◌, refl, sym, ap, ◌∙◌, ◌≢◌, ◌⊎◌, List, [], ◌∷◌, arith, ne→==,
  length, get_or,
}
use loos_lab.Base.Run.{done}
use loos_lab.Memory.{Mem, put, CStr}
use loos_lab.Libc.Stdio.{swap_loop, uitoa, uatoi, put_list}
use loos_lab.Libc.Stdio.Digits.{IsRadix, digit, ten, sixteen}
use loos_lab.Libc.Stdio.Numeral.{
  digits, rev, horner, chars, AllBelow, put_digits_lem, horner-digits, AllBelow-digits, length-rev,
  get_or-rev,
}
use loos_lab.Libc.Stdio.Swap.{put_list_off, put_list_at, swap_loop_off, swap_loop_at}
use loos_lab.Libc.Stdio.Reading.{get_or-chars, length-chars, CStr-chars, uatoi-CStr}

-- The memory after `_uitoa` of a number other than 0.
abbrev numeral : Mem → (s : ℕ) → List ℕ → Mem
numeral m s ds =
    let n = length ds in
    put (swap_loop (s + n - s) (put_list m s (chars ds)) s (s + n - 1)) (s + n) 0

uitoa_nonzero :
    {r : ℕ} (R : IsRadix r) (m : Mem) (v s : ℕ)
    → v ≢ 0
    → uitoa m v s r ≡ done (length (digits (v + 1) v r) + 1, numeral m s (digits (v + 1) v r))
unfolding uitoa
uitoa_nonzero ten m v s h =
    rw (ne→== v 0 h, put_digits_lem ten (v + 1) m v s (omega arith))
      (ap (λ k. done (k, numeral m s (digits (v + 1) v 10))) (omega arith))
uitoa_nonzero sixteen m v s h =
    rw (ne→== v 0 h, put_digits_lem sixteen (v + 1) m v s (omega arith))
      (ap (λ k. done (k, numeral m s (digits (v + 1) v 16))) (omega arith))

module _ (m : Mem) (s : ℕ) (ds : List ℕ) where
  numeral_at : (i : ℕ) → i < length ds → numeral m s ds (s + i) ≡ digit (get_or (rev ds) i 0)
  unfolding put
  numeral_at i h =
      let j = length ds - 1 - i in
      let off : s + i ≢ s + length ds = omega arith in
      rw (ne→== (s + i) (s + length ds) off) (
        swap_loop_at (s + length ds - s) (put_list m s (chars ds)) s (s + length ds - 1) (s + i)
          (s + j) (omega arith) (omega arith) (omega arith) (omega arith)
        ∙ put_list_at m s (chars ds) j (omega (arith, length-chars ds))
        ∙ get_or-chars ds j (omega arith)
        ∙ ap digit (sym (get_or-rev ds i j (omega arith))))

  numeral_end : numeral m s ds (s + length ds) ≡ 0
  unfolding put
  numeral_end = ground arith

  numeral_off : (x : ℕ) → (x < s) ⊎ (s + length ds < x) → 0 < length ds → numeral m s ds x ≡ m x
  unfolding put
  numeral_off x h ne = rw (ne→== x (s + length ds) (omega arith)) (
      swap_loop_off (s + length ds - s) (put_list m s (chars ds)) s (s + length ds - 1) x
        (omega arith)
      ∙ put_list_off m s (chars ds) x (omega (arith, length-chars ds)))

length_ne : (f v r : ℕ) → v ≢ 0 → f ≢ 0 → 0 < length (digits f v r)
unfolding digits
length_ne zero v r h e = absurd (e refl)
length_ne (suc f) v r h e = rw (ne→== v 0 h) (omega arith)

numeral-CStr :
    {r : ℕ} (R : IsRadix r) (m : Mem) (s v : ℕ)
    → CStr (numeral m s (digits (v + 1) v r)) s (chars (rev (digits (v + 1) v r)))
numeral-CStr {r} R m s v =
    let ds = digits (v + 1) v r in
    CStr-chars R (numeral m s ds) s (rev ds) (AllBelow-digits R (v + 1) v)
      (λ i h. numeral_at m s ds i (omega (arith, length-rev ds)))
      (ap (λ k. numeral m s ds (s + k)) (length-rev ds) ∙ numeral_end m s ds)

-- The zero of both radices.
zero_digit : {r : ℕ} (R : IsRadix r) → AllBelow r (0 ∷ [])
zero_digit ten = (omega arith, tt)
zero_digit sixteen = (omega arith, tt)

zero_value : {r : ℕ} (R : IsRadix r) → horner 0 r (0 ∷ []) ≡ 0
zero_value ten = refl
zero_value sixteen = refl

uitoa_zero :
    {r : ℕ} (R : IsRadix r) (m : Mem) (s : ℕ)
    → uitoa m 0 s r ≡ done (2, put (put m s b'0') (s + 1) 0)
unfolding uitoa
uitoa_zero ten m s = refl
uitoa_zero sixteen m s = refl

-- In radix 10 and 16, `_uitoa` of a 64-bit number writes a string of `n` characters and its terminator and
-- nothing else, answers `n + 1`, and `_uatoi` on that string reads `n` characters and the same number.
pub uitoa-uatoi :
    {r : ℕ} (R : IsRadix r) (m : Mem) (v s : ℕ)
    → v < 2 ^ 64
    → (n : ℕ) × (m' : Mem) × (uitoa m v s r ≡ done (n + 1, m'))
      × ((text : List ℕ) × (length text ≡ n) × CStr m' s text)
      × (uatoi (n + 1) m' s r ≡ done (n, v))
      × ((x : ℕ) → (x < s) ⊎ (s + n < x) → m' x ≡ m x)
unfolding put
uitoa-uatoi {r} R m zero s h =
    let m' : Mem = put (put m s b'0') (s + 1) 0 in
    let c : CStr m' s (chars (0 ∷ [])) = (ground arith, ground arith, ground arith) in
    (
      1,
      m',
      uitoa_zero R m s,
      (chars (0 ∷ []), refl, c),
      uatoi-CStr R 2 m' s (0 ∷ []) c (zero_digit R) (rw (zero_value R) h) (omega arith)
          ∙ ap (λ k. done (1, k)) (zero_value R),
      λ x o. ground arith,
    )
uitoa-uatoi {r} R m (suc u) s h =
    let v = suc u in
    let ds = digits (v + 1) v r in
    let n = length ds in
    let back : horner 0 r (rev ds) ≡ v = horner-digits R (v + 1) v (omega arith) in
    let read : uatoi (n + 1) (numeral m s ds) s r ≡ done (length (rev ds), horner 0 r (rev ds)) =
      uatoi-CStr R (n + 1) (numeral m s ds) s (rev ds) (numeral-CStr R m s v)
        (AllBelow-digits R (v + 1) v) (rw back h) (omega (arith, length-rev ds)) in
    (
      n,
      numeral m s ds,
      uitoa_nonzero R m v s (omega arith),
      (chars (rev ds), omega (arith, length-chars (rev ds), length-rev ds), numeral-CStr R m s v),
      read
          ∙ ap (λ (k : ℕ). done (k, horner 0 r (rev ds))) (length-rev ds)
          ∙ ap (λ k. done (n, k)) back,
      λ x o. numeral_off m s ds x o (length_ne (v + 1) v r (omega arith) (omega arith)),
    )
