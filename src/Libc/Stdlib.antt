-- ===== src/Libc/Stdlib.antt =====
-- lolibc/stdlib.c: numbers, and the heap on pages of the page allocator. `extern char _heap_start` and the code
-- that is commented out are not used.
pub mod Heap
pub mod Atoi
pub mod Reuse
pub mod Tests
use loos_lab.Base.{ℕ, zero, suc, ◌+◌, ◌-◌, ◌*◌, ◌/◌, ◌%◌, ◌^◌, ◌&&◌, leb, ◌==◌, if◌then◌else◌}
use loos_lab.Base.Int.{ℤ, ltb_ℤ, pos, negsuc}
use loos_lab.Base.Run.{Run, ◌>>=◌, done, out_of_fuel}
use loos_lab.Memory.{Mem}
use loos_lab.Libc.Stdio.{int_of}

-- `rand`: the answer, and `next`.
unfoldable pub rand : (next : ℕ) → ℕ × ℕ
rand next = let new = (next * 1103515245 + 12345) % 2 ^ 64 in (new / 65536 % 2 ^ 32 % 32768, new)

-- `srand`: `next` is what the `unsigned int` says.
unfoldable pub srand : (seed : ℕ) → ℕ
srand seed = seed % 2 ^ 32

-- `abs` of an `int`; of the least one it is undefined in C, and that one itself here.
unfoldable pub abs : ℤ → ℤ
abs (pos n) = pos n
abs (negsuc n) = if n == 2 ^ 31 - 1 then negsuc n else pos (n + 1)

-- `while (*nptr == ' ') { nptr ++; }`
unfoldable pub skip_spaces : (fuel : ℕ) → Mem → (nptr : ℕ) → Run ℕ
skip_spaces zero m nptr = out_of_fuel
skip_spaces (suc f) m nptr =
    let rest = skip_spaces f m (nptr + 1) in if m nptr == b' ' then rest else done nptr

-- The second loop of `atoi`; the `int` is kept as its low 32 bits.
unfoldable pub digit_loop : (fuel : ℕ) → Mem → (nptr x : ℕ) → Run ℕ
digit_loop zero m nptr x = out_of_fuel
digit_loop (suc f) m nptr x =
    let rest = digit_loop f m (nptr + 1) ((x * 10 + m nptr - b'0') % 2 ^ 32) in
    if leb b'0' (m nptr) && leb (m nptr) b'9' then rest else done x

unfoldable pub atoi : (fuel : ℕ) → Mem → (nptr : ℕ) → Run ℤ
unfolding skip_spaces digit_loop
atoi fuel m nptr = do p ← skip_spaces fuel m nptr; x ← digit_loop fuel m p 0; done (int_of x)

-- `min` and `max` of two `int`s
unfoldable pub min_int : ℤ → ℤ → ℤ
min_int a b = if ltb_ℤ a b then a else b

unfoldable pub max_int : ℤ → ℤ → ℤ
max_int a b = if ltb_ℤ b a then a else b
