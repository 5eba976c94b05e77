-- ===== src/Libc/Stdio/Plain.antt =====
-- `vsprintf` of lolibc/stdio.c on a format without conversions.

use loos_lab.Base.{
  ℕ, zero, suc, ◌+◌, ◌≤◌, ◌<◌, ◌≡◌, ap, ◌⊎◌, false, some, List, [], ◌∷◌, arith, length, has,
}
use loos_lab.Base.Run.{done}
use loos_lab.Memory.{Mem, put, CStr}
use loos_lab.Libc.Str.{copy_str, strcpy}
use loos_lab.Libc.Str.Copy.{CStr-put}
use loos_lab.Libc.Stdio.{format_loop, vsprintf}

format_loop-copy_str :
    (n f : ℕ) (m : Mem) (fmt dst buf : ℕ) (args xs : List ℕ)
    → CStr m fmt xs
    → has b'%' xs ≡ false
    → (dst ≤ fmt) ⊎ (fmt + length xs < dst)
    → length xs < n
    → (m₁ : Mem) × (format_loop n f m fmt dst buf args ≡ done (dst + length xs, m₁))
      × (copy_str n m dst fmt ≡ some (put m₁ (dst + length xs) 0))
unfolding format_loop copy_str
format_loop-copy_str zero f m fmt dst buf args xs s p apart h = absurd (omega arith)
format_loop-copy_str (suc n) f m fmt dst buf args [] s p apart h = (m, ground arith, ground arith)
format_loop-copy_str (suc n) f m fmt dst buf args (x ∷ xs) s p apart h =
    let keep = CStr-put m (fmt + 1) dst (m fmt) xs s.2 (omega arith) in
    let (m₁, eq, copy) =
      format_loop-copy_str n f (put m dst (m fmt)) (fmt + 1) (dst + 1) buf args xs keep
        (ground arith) (omega arith) (omega arith) in
    (m₁, ground (arith, eq), ground (arith, copy))

-- On a terminated format without percent signs that does not run into the output, `vsprintf` does what `strcpy`
-- does and answers the count of characters with the terminator.
pub vsprintf-strcpy :
    (n f : ℕ) (m : Mem) (out fmt buf : ℕ) (args xs : List ℕ)
    → CStr m fmt xs
    → has b'%' xs ≡ false
    → (out ≤ fmt) ⊎ (fmt + length xs < out)
    → length xs < n
    → (m' : Mem) × (strcpy n m out fmt ≡ some m')
      × (vsprintf n f m out fmt buf args ≡ done (length xs + 1, m'))
unfolding vsprintf strcpy
vsprintf-strcpy n f m out fmt buf args xs s p apart h =
    let (m₁, eq, copy) = format_loop-copy_str n f m fmt out buf args xs s p apart h in
    (
      put m₁ (out + length xs) 0,
      copy,
      rw eq (ap (λ k. done (k, put m₁ (out + length xs) 0)) (omega arith)),
    )
