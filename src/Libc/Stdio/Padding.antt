-- ===== src/Libc/Stdio/Padding.antt =====
-- `copy_fmt_str` of lolibc/stdio.c: text of at least a given width.

use native.Mathlib.Nat.{add-zero}
use mathlib.Core.Path.{subst}
use loos_lab.Base.{
  ℕ, zero, suc, ◌+◌, ◌-◌, ◌≤◌, ◌<◌, ◌≡◌, sym, ap, ◌∙◌, ◌⊎◌, some, List, [], ◌∷◌, ◌++◌, arith, ltb,
  if◌then◌else◌, length, replicate, length-replicate,
}
use loos_lab.Base.Int.{ℤ, pos_part}
use loos_lab.Memory.{Mem, put, copied, filled, CStr}
use loos_lab.Libc.Str.{strlen, strcpy}
use loos_lab.Libc.Str.Copy.{strlen-CStr, CStr-move, strcpy-CStr}
use loos_lab.Libc.Stdio.{FmtFlag, put_chars, copy_fmt_str, flag_nop, flag_zero, flag_left}

put_chars-filled : (m : Mem) (dst c n x : ℕ) → (put_chars m dst c n).0 x ≡ filled m dst c n x
unfolding put_chars put filled
put_chars-filled m dst c zero x = ground arith
put_chars-filled m dst c (suc n) x = ground (arith, put_chars-filled (put m dst c) (dst + 1) c n x)

put_chars_end : (m : Mem) (dst c n : ℕ) → (put_chars m dst c n).1 ≡ dst + n
unfolding put_chars
put_chars_end m dst c zero = omega arith
put_chars_end m dst c (suc n) = omega (arith, put_chars_end (put m dst c) (dst + 1) c n)

-- The bytes `xs` stand from `s` on.
abbrev pub Text : Mem → ℕ → List ℕ → Type 0
Text m s [] = Unit
Text m s (c ∷ xs) = (m s ≡ c) × Text m (s + 1) xs

pub Text-append :
    (m : Mem) (s : ℕ) (xs ys : List ℕ)
    → Text m s xs
    → Text m (s + length xs) ys
    → Text m s (xs ++ ys)
Text-append m s [] ys t u = subst (λ k. Text m k ys) (add-zero s) u
Text-append m s (x ∷ xs) ys t u =
    (t.0, Text-append m (s + 1) xs ys t.1 (subst (λ k. Text m k ys) (omega arith) u))

pub Text-replicate :
    (m : Mem) (s n c : ℕ) → ((i : ℕ) → i < n → m (s + i) ≡ c) → Text m s (replicate n c)
Text-replicate m s zero c h = tt
Text-replicate m s (suc n) c h = (
  ap m (sym (add-zero s)) ∙ h 0 (omega arith),
  Text-replicate m (s + 1) n c (λ i lt. ap m (omega arith) ∙ h (suc i) (omega arith)),
)

pub Text-CStr : (m : Mem) (s : ℕ) (xs : List ℕ) → CStr m s xs → Text m s xs
Text-CStr m s [] c = tt
Text-CStr m s (x ∷ xs) c = (c.0, Text-CStr m (s + 1) xs c.2)

pub Text-move :
    (m m' : Mem) (s : ℕ) (xs : List ℕ)
    → Text m s xs
    → ((x : ℕ) → s ≤ x → x < s + length xs → m' x ≡ m x)
    → Text m' s xs
Text-move m m' s [] t h = tt
Text-move m m' s (x ∷ xs) t h = (
  h s (omega arith) (omega arith) ∙ t.0,
  Text-move m m' (s + 1) xs t.1 (λ y lo hi. h y (omega arith) (omega arith)),
)

-- `xs` with `k` characters of padding.
abbrev pub padded : FmtFlag → ℕ → List ℕ → List ℕ
padded flag_nop k xs = replicate k b' ' ++ xs
padded flag_zero k xs = replicate k b'0' ++ xs
padded flag_left k xs = xs ++ replicate k b' '

module _ (f : ℕ) (m : Mem) (dst buf k : ℕ) (xs : List ℕ) (string : CStr m buf xs)
    (apart : (dst + k + length xs < buf) ⊎ (buf + length xs < dst)) (enough : length xs < f) where
  fill_then_copy :
      (c : ℕ)
      → (m' : Mem) × (strcpy f (put_chars m dst c k).0 (put_chars m dst c k).1 buf ≡ some m')
        × Text m' dst (replicate k c ++ xs)
        × ((x : ℕ) → (x < dst) ⊎ (dst + k + length xs < x) → m' x ≡ m x)
  unfolding copied filled
  fill_then_copy c =
      let m₁ = (put_chars m dst c k).0 in
      let at = put_chars_end m dst c k in
      let keep : CStr m₁ buf xs =
        CStr-move m m₁ buf buf xs string
          (λ i le. ground (arith, put_chars-filled m dst c k (buf + i))) in
      let (m', eq, same, text) =
        strcpy-CStr f m₁ (put_chars m dst c k).1 buf xs keep (omega arith) enough in
      (
        m',
        eq,
        Text-append m' dst (replicate k c) xs
            (Text-replicate m' dst k c
              (λ i lt. ground (arith, same (dst + i), put_chars-filled m dst c k (dst + i))))
            (subst (λ a. Text m' a xs) (omega (arith, length-replicate k c))
              (Text-CStr m' (put_chars m dst c k).1 xs text)),
        λ x o. ground (arith, same x, put_chars-filled m dst c k x),
      )

  copy_then_fill :
      (m' : Mem) × (strcpy f m dst buf ≡ some m')
      × (strlen f m' buf ≡ some (length xs))
      × Text (put_chars m' (dst + length xs) b' ' k).0 dst (xs ++ replicate k b' ')
      × ((x : ℕ)
          → (x < dst) ⊎ (dst + k + length xs < x)
          → (put_chars m' (dst + length xs) b' ' k).0 x ≡ m x)
  unfolding copied filled
  copy_then_fill =
      let (m', eq, same, text) = strcpy-CStr f m dst buf xs string (omega arith) enough in
      let keep : CStr m' buf xs =
        CStr-move m m' buf buf xs string (λ i le. ground (arith, same (buf + i))) in
      let e = dst + length xs in
      let m₂ = (put_chars m' e b' ' k).0 in
      (
        m',
        eq,
        strlen-CStr f m' buf xs keep enough,
        Text-append m₂ dst xs (replicate k b' ')
            (Text-move m' m₂ dst xs (Text-CStr m' dst xs text)
              (λ x lo hi. ground (arith, put_chars-filled m' e b' ' k x)))
            (Text-replicate m₂ e k b' '
              (λ i lt. ground (arith, put_chars-filled m' e b' ' k (e + i)))),
        λ x o. ground (arith, same x, put_chars-filled m' e b' ' k x),
      )

  widest :
      (num : ℤ)
      → k ≡ pos_part num - length xs
      → (if ltb (length xs) (pos_part num) then pos_part num else length xs) ≡ k + length xs
  widest num e = ground arith

  left_over :
      (num : ℤ)
      → k ≡ pos_part num - length xs
      → (if ltb (length xs) (pos_part num) then pos_part num else length xs) - length xs ≡ k
  left_over num e = ground arith

-- `copy_fmt_str` on a string that stands clear of its target answers the greater of the length and the width,
-- puts there the string with the padding of its flag on its side, and writes at most one byte behind it.
pub copy_fmt_str_lem :
    (f : ℕ) (m : Mem) (dst buf k : ℕ) (flag : FmtFlag) (num : ℤ) (xs : List ℕ)
    → CStr m buf xs
    → k ≡ pos_part num - length xs
    → (dst + k + length xs < buf) ⊎ (buf + length xs < dst)
    → length xs < f
    → (m' : Mem) × (copy_fmt_str f m dst buf flag num ≡ some (k + length xs, m'))
      × Text m' dst (padded flag k xs)
      × ((x : ℕ) → (x < dst) ⊎ (dst + k + length xs < x) → m' x ≡ m x)
unfolding copy_fmt_str
copy_fmt_str_lem f m dst buf k flag_nop num xs s e apart h =
    let (m', eq, text, off) = fill_then_copy f m dst buf k xs s apart h b' ' in
    let w = widest f m dst buf k xs s apart h num e in
    (
      m',
      ground (arith, strlen-CStr f m buf xs s h, left_over f m dst buf k xs s apart h num e, eq, w),
      text,
      off,
    )
copy_fmt_str_lem f m dst buf k flag_zero num xs s e apart h =
    let (m', eq, text, off) = fill_then_copy f m dst buf k xs s apart h b'0' in
    let w = widest f m dst buf k xs s apart h num e in
    (
      m',
      ground (arith, strlen-CStr f m buf xs s h, left_over f m dst buf k xs s apart h num e, eq, w),
      text,
      off,
    )
copy_fmt_str_lem f m dst buf k flag_left num xs s e apart h =
    let (m', eq, again, text, off) = copy_then_fill f m dst buf k xs s apart h in
    let w = widest f m dst buf k xs s apart h num e in
    (
      (put_chars m' (dst + length xs) b' ' k).0,
      ground (
        arith,
        strlen-CStr f m buf xs s h,
        left_over f m dst buf k xs s apart h num e,
        eq,
        again,
        w,
      ),
      text,
      off,
    )
