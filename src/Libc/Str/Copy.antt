-- ===== src/Libc/Str/Copy.antt =====
-- `strlen`, `strcpy`, `strncpy` and `strcat` of lolibc/string.c on terminated strings.
use native.Mathlib.Nat.{add-zero}
use loos_lab.Base.{
  ℕ, zero, suc, ◌+◌, ◌-◌, ◌≤◌, ◌<◌, ◌≡◌, ◌⊎◌, some, List, [], ◌∷◌, ◌++◌, arith, ltb, if◌then◌else◌,
  length,
}
use loos_lab.Memory.{Mem, put, within, copied, filled, ◌≗◌, CStr}
use loos_lab.Libc.Str.{strlen_loop, strlen, copy_str, strcpy, pad, strncpy, find_end, strcat}

strlen_loop-CStr :
    (f : ℕ) (m : Mem) (s p : ℕ) (xs : List ℕ)
    → CStr m s xs
    → length xs < f
    → strlen_loop f m s p ≡ some (p + length xs)
unfolding strlen_loop
strlen_loop-CStr zero m s p xs c h = absurd (omega arith)
strlen_loop-CStr (suc f) m s p [] c h = ground arith
strlen_loop-CStr (suc f) m s p (x ∷ xs) c h =
    ground (arith, strlen_loop-CStr f m (s + 1) (p + 1) xs c.2 (omega arith))

-- On a terminated string `strlen` stops within `length + 1` rounds and answers the length.
pub strlen-CStr :
    (f : ℕ) (m : Mem) (s : ℕ) (xs : List ℕ)
    → CStr m s xs
    → length xs < f
    → strlen f m s ≡ some (length xs)
unfolding strlen
strlen-CStr f m s xs c h = ground (arith, strlen_loop-CStr f m s 0 xs c h)

-- A write off a string leaves it.
pub CStr-put :
    (m : Mem) (s a v : ℕ) (xs : List ℕ)
    → CStr m s xs
    → (a < s) ⊎ (s + length xs < a)
    → CStr (put m a v) s xs
unfolding put
CStr-put m s a v [] c h = ground arith
CStr-put m s a v (x ∷ xs) c h = (ground arith, c.1, CStr-put m (s + 1) a v xs c.2 (omega arith))

-- A string whose bytes are all found again from `d` on stands there too.
pub CStr-move :
    (m m' : Mem) (s d : ℕ) (xs : List ℕ)
    → CStr m s xs
    → ((i : ℕ) → i ≤ length xs → m' (d + i) ≡ m (s + i))
    → CStr m' d xs
CStr-move m m' s d [] c h = ground (arith, h 0)
CStr-move m m' s d (x ∷ xs) c h = (
  ground (arith, h 0),
  c.1,
  CStr-move m m' (s + 1) (d + 1) xs c.2 (λ i le. ground (arith, h (suc i))),
)

copy_str-copied :
    (f : ℕ) (m : Mem) (dst src : ℕ) (xs : List ℕ)
    → CStr m src xs
    → (dst ≤ src) ⊎ (src + length xs < dst)
    → length xs < f
    → (m' : Mem) × (copy_str f m dst src ≡ some m') × (m' ≗ copied m dst src (length xs + 1))
unfolding copy_str put copied
copy_str-copied zero m dst src xs c apart h = absurd (omega arith)
copy_str-copied (suc f) m dst src [] c apart h = (put m dst 0, ground arith, λ x. ground arith)
copy_str-copied (suc f) m dst src (x ∷ xs) c apart h =
    let keep = CStr-put m (src + 1) dst (m src) xs c.2 (omega arith) in
    let (m', eq, same) =
      copy_str-copied f (put m dst (m src)) (dst + 1) (src + 1) xs keep (omega arith)
        (omega arith) in
    (m', ground (arith, eq), λ y. ground (arith, same y))

module _ (f : ℕ) (m : Mem) (dst src : ℕ) (xs : List ℕ) (string : CStr m src xs) where
  -- `strcpy` from a terminated string that does not run into its destination copies the string with
  -- its terminator, and writes nowhere else.
  pub strcpy-CStr :
      (dst ≤ src) ⊎ (src + length xs < dst)
      → length xs < f
      → (m' : Mem) × (strcpy f m dst src ≡ some m')
        × (m' ≗ copied m dst src (length xs + 1))
        × CStr m' dst xs
  unfolding strcpy copied
  strcpy-CStr apart h =
      let (m', eq, same) = copy_str-copied f m dst src xs string apart h in
      (m', eq, same, CStr-move m m' src dst xs string (λ i le. ground (arith, same (dst + i))))

find_end-CStr :
    (f : ℕ) (m : Mem) (s : ℕ) (xs : List ℕ)
    → CStr m s xs
    → length xs < f
    → find_end f m s ≡ some (s + length xs)
unfolding find_end
find_end-CStr zero m s xs c h = absurd (omega arith)
find_end-CStr (suc f) m s [] c h = ground arith
find_end-CStr (suc f) m s (x ∷ xs) c h =
    ground (arith, find_end-CStr f m (s + 1) xs c.2 (omega arith))

-- Two strings end to end: the first up to its terminator, the second over it.
CStr-append :
    (m m' : Mem) (s : ℕ) (xs ys : List ℕ)
    → CStr m s xs
    → ((i : ℕ) → i < length xs → m' (s + i) ≡ m (s + i))
    → CStr m' (s + length xs) ys
    → CStr m' s (xs ++ ys)
CStr-append m m' s [] ys c same d = rw add-zero at d
CStr-append m m' s (x ∷ xs) ys c same d = (
  ground (arith, same 0),
  c.1,
  CStr-append m m' (s + 1) xs ys c.2 (λ i lt. ground (arith, same (suc i))) (rw shift at d),
)
  where
    shift : s + length (x ∷ xs) ≡ s + 1 + length xs
    shift = omega arith

-- `strcat` of a string that lies off its destination leaves the two strings joined there, and
-- writes only from the old terminator on.
pub strcat-append :
    (f : ℕ) (m : Mem) (dst src : ℕ) (xs ys : List ℕ)
    → CStr m dst xs
    → CStr m src ys
    → (dst + length xs ≤ src) ⊎ (src + length ys < dst + length xs)
    → length xs < f
    → length ys < f
    → (m' : Mem) × (strcat f m dst src ≡ some m')
      × CStr m' dst (xs ++ ys)
      × (m' ≗ copied m (dst + length xs) src (length ys + 1))
unfolding strcat copied
strcat-append f m dst src xs ys c d apart hx hy =
    let e = dst + length xs in
    let (m', eq, same) = copy_str-copied f m e src ys d apart hy in
    (
      m',
      ground (arith, find_end-CStr f m dst xs c hx, eq),
      CStr-append m m' dst xs ys c (λ i lt. ground (arith, same (dst + i)))
          (CStr-move m m' src e ys d (λ i le. ground (arith, same (e + i)))),
      same,
    )

pad-filled : (m : Mem) (dst n : ℕ) → pad m dst n ≗ filled m dst 0 n
unfolding pad put filled
pad-filled m dst zero x = ground arith
pad-filled m dst (suc n) x = ground (arith, pad-filled (put m dst 0) (dst + 1) n x)

-- `strncpy` writes exactly the `n` bytes from `dst` on: the characters of the string as far as they
-- go, then zeros. With `n` at most the length it writes no terminator.
pub strncpy_lem :
    (m : Mem) (dst src n : ℕ) (xs : List ℕ)
    → CStr m src xs
    → (dst ≤ src) ⊎ (src + length xs < dst)
    → (x : ℕ)
    → strncpy m dst src n x ≡ (
        if within dst n x
        then (if ltb (x - dst) (length xs) then m (src + (x - dst)) else 0)
        else m x)
unfolding strncpy put filled
strncpy_lem m dst src zero xs c apart x = ground arith
strncpy_lem m dst src (suc n) [] c apart x = ground (arith, pad-filled m dst (suc n) x)
strncpy_lem m dst src (suc n) (y ∷ ys) c apart x =
    let keep = CStr-put m (src + 1) dst (m src) ys c.2 (omega arith) in
    let ih = strncpy_lem (put m dst (m src)) (dst + 1) (src + 1) n ys keep (omega arith) x in
    ground (arith, ih)
