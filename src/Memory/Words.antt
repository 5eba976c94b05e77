-- ===== src/Memory/Words.antt =====
-- 64-bit words in memory, least significant byte first (LoongArch is little-endian).
use native.Mathlib.Nat.{add-zero}
use loos_lab.Base.{
  ℕ, zero, suc, ◌+◌, ◌-◌, ◌*◌, ◌/◌, ◌%◌, ◌^◌, ◌≤◌, ◌<◌, ◌≡◌, ◌⊎◌, arith, if◌then◌else◌,
}
use loos_lab.Memory.{Mem, within}

-- Byte `i` of the word `v`.
byte_of : ℕ → ℕ → ℕ
byte_of v zero = v % 256
byte_of v (suc i) = byte_of (v / 256) i

-- `*(uint64_t *)a = v`
unfoldable pub put64 : Mem → (a v : ℕ) → Mem
unfolding byte_of
put64 m a v x = if within a 8 x then byte_of v (x - a) else m x

-- `*(uint64_t *)a`
unfoldable pub get64 : Mem → ℕ → ℕ
get64 m a =
    m a
    + 256
      * (m (a + 1)
          + 256
            * (m (a + 2)
                + 256
                  * (m (a + 3)
                      + 256
                        * (m (a + 4) + 256 * (m (a + 5) + 256 * (m (a + 6) + 256 * m (a + 7)))))))

-- A word depends on its eight bytes alone.
pub get64_ext :
    (m m' : Mem) (a : ℕ) → ((x : ℕ) → a ≤ x → x < a + 8 → m x ≡ m' x) → get64 m a ≡ get64 m' a
unfolding get64
get64_ext m m' a same = omega (
  arith,
  same a (omega arith) (omega arith),
  same (a + 1) (omega arith) (omega arith),
  same (a + 2) (omega arith) (omega arith),
  same (a + 3) (omega arith) (omega arith),
  same (a + 4) (omega arith) (omega arith),
  same (a + 5) (omega arith) (omega arith),
  same (a + 6) (omega arith) (omega arith),
  same (a + 7) (omega arith) (omega arith),
)

put64_at : (m : Mem) (a v i : ℕ) → i < 8 → put64 m a v (a + i) ≡ byte_of v i
unfolding put64
put64_at m a v i h = ground arith

pub put64_off : (m : Mem) (a v x : ℕ) → (x < a) ⊎ (a + 8 ≤ x) → put64 m a v x ≡ m x
unfolding put64
put64_off m a v x h = ground arith

bytes_sum :
    (v : ℕ)
    → v < 2 ^ 64
    → byte_of v 0
        + 256
          * (byte_of v 1
              + 256
                * (byte_of v 2
                    + 256
                      * (byte_of v 3
                          + 256
                            * (byte_of v 4
                                + 256 * (byte_of v 5 + 256 * (byte_of v 6 + 256 * byte_of v 7))))))
      ≡ v
unfolding byte_of
bytes_sum v h = omega arith

-- A word that is stored is read back.
pub get64-put64_self : (m : Mem) (a v : ℕ) → v < 2 ^ 64 → get64 (put64 m a v) a ≡ v
unfolding get64
get64-put64_self m a v h = omega (
  arith,
  bytes_sum v h,
  first,
  put64_at m a v 1 (omega arith),
  put64_at m a v 2 (omega arith),
  put64_at m a v 3 (omega arith),
  put64_at m a v 4 (omega arith),
  put64_at m a v 5 (omega arith),
  put64_at m a v 6 (omega arith),
  put64_at m a v 7 (omega arith),
)
  where
    first : put64 m a v a ≡ byte_of v 0
    first = rw (add-zero a) at (put64_at m a v 0 (omega arith))

-- Words that share no byte do not disturb one another.
pub get64-put64_ne :
    (m : Mem) (a b v : ℕ) → (b + 8 ≤ a) ⊎ (a + 8 ≤ b) → get64 (put64 m a v) b ≡ get64 m b
get64-put64_ne m a b v h = get64_ext (put64 m a v) m b (λ x lo hi. put64_off m a v x (omega arith))
