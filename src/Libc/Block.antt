-- ===== src/Libc/Block.antt =====
-- lolibc/string.c: the block functions `memset`, `memcpy`, `memmove` and `memcmp`.
-- Each returns the memory and the pointer that the C function returns; the loops run down `n`.
pub mod Laws
use loos_lab.Base.{ℕ, zero, suc, ◌+◌, ◌-◌, ◌%◌, ◌&&◌, ltb, leb, ◌==◌, if◌then◌else◌}
use loos_lab.Base.Int.{ℤ, pos, ◌-ℤ◌}
use loos_lab.Memory.{Mem, put}

-- `c` is the bit pattern of the `int` argument; the cast to `uint8_t` keeps its low byte.
unfoldable pub memset : Mem → (s c n : ℕ) → Mem × ℕ
memset m s c zero = (m, s)
memset m s c (suc n) = memset (put m s (c % 256)) (s + 1) c n

unfoldable pub memcpy : Mem → (out inp n : ℕ) → Mem × ℕ
memcpy m out inp zero = (m, out)
memcpy m out inp (suc n) = memcpy (put m out (m inp)) (out + 1) (inp + 1) n

-- The descending loop of `memmove`.
unfoldable pub move_back : Mem → (out inp n : ℕ) → Mem × ℕ
move_back m out inp zero = (m, out)
move_back m out inp (suc n) = move_back (put m out (m inp)) (out - 1) (inp - 1) n

unfoldable pub memmove : Mem → (dst src n : ℕ) → Mem × ℕ
unfolding memcpy move_back
memmove m dst src n =
    if ltb src dst && leb dst (src + n)
    then move_back m (dst + n - 1) (src + n - 1) n
    else ((memcpy m dst src n).0, dst)

-- `*m1 - *m2` on bytes
unfoldable pub byte_diff : Mem → (a b : ℕ) → ℤ
unfolding ◌-ℤ◌
byte_diff m a b = pos (m a) -ℤ pos (m b)

unfoldable pub memcmp : Mem → (a b n : ℕ) → ℤ
unfolding byte_diff
memcmp m a b zero = byte_diff m a b
memcmp m a b (suc n) =
    if m a == m b && ltb 1 (suc n) then memcmp m (a + 1) (b + 1) n else byte_diff m a b
