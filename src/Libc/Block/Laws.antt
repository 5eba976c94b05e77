-- ===== src/Libc/Block/Laws.antt =====
-- What the block functions of lolibc/string.c leave in memory.

use loos_lab.Base.{
  ℕ, zero, suc, ◌+◌, ◌-◌, ◌%◌, ◌≤◌, ◌<◌, ◌≡◌, ◌≢◌, ◌⊎◌, inl, inr, ◌&&◌, arith, ltb, leb, ◌==◌,
  Bool-cases,
}
use loos_lab.Memory.{Mem, put, copied, filled, ◌≗◌}
use loos_lab.Libc.Block.{memset, memcpy, move_back, memmove, byte_diff, memcmp}

-- `memset` sets exactly the `n` bytes from `s` on, to the low byte of `c`, and returns the address
-- behind them.
pub memset-filled :
    (m : Mem) (s c n : ℕ)
    → ((memset m s c n).0 ≗ filled m s (c % 256) n) × ((memset m s c n).1 ≡ s + n)
unfolding memset put filled
memset-filled m s c zero = (λ x. ground arith, omega arith)
memset-filled m s c (suc n) =
    let (same, back) = memset-filled (put m s (c % 256)) (s + 1) c n in
    (λ x. ground (arith, same x), omega arith)

pub memcpy-copied :
    (m : Mem) (dst src n : ℕ)
    → (dst ≤ src) ⊎ (src + n ≤ dst)
    → (memcpy m dst src n).0 ≗ copied m dst src n
unfolding memcpy put copied
memcpy-copied m dst src zero h x = ground arith
memcpy-copied m dst src (suc n) h x =
    ground (arith, memcpy-copied (put m dst (m src)) (dst + 1) (src + 1) n (omega arith) x)

-- `out` and `inp` are the last addresses of the two ranges.
move_back-copied :
    (m : Mem) (dst src n : ℕ)
    → src < dst
    → (move_back m (dst + n - 1) (src + n - 1) n).0 ≗ copied m dst src n
unfolding move_back put copied
move_back-copied m dst src zero h x = ground arith
move_back-copied m dst src (suc n) h x =
    ground (arith, move_back-copied (put m (dst + n) (m (src + n))) dst src n h x)

-- `memmove` copies as if through a buffer, whether or not the two ranges overlap, and writes nothing
-- outside the `n` bytes from `dst` on.
pub memmove-copied : (m : Mem) (dst src n : ℕ) → (memmove m dst src n).0 ≗ copied m dst src n
unfolding memmove
memmove-copied m dst src n x = elim (Bool-cases (ltb src dst && leb dst (src + n))) [
  | inl back ↦ rw back (move_back-copied m dst src n (ground arith) x)
  | inr front ↦ rw front (memcpy-copied m dst src n (ground arith) x)
]

-- `memcmp` of at least one byte is the difference of the bytes at the first index `k` where the
-- blocks differ, or at the last index if they agree before it.
pub memcmp_first :
    (m : Mem) (a b n : ℕ)
    → 0 < n
    → (k : ℕ) × (k < n)
      × (memcmp m a b n ≡ byte_diff m (a + k) (b + k))
      × ((i : ℕ) → i < k → m (a + i) ≡ m (b + i))
      × ((k + 1 ≡ n) ⊎ (m (a + k) ≢ m (b + k)))
unfolding memcmp
memcmp_first m a b zero h = absurd (omega arith)
memcmp_first m a b (suc n) h = elim (Bool-cases (m a == m b && ltb 1 (suc n))) [
  | inl more ↦
      let (k, lt, eq, same, stop) = memcmp_first m (a + 1) (b + 1) n (ground arith) in
      (
        suc k,
        omega arith,
        rw more (ground (arith, eq)),
        earlier k (ground arith) same,
        ground (arith, stop),
      )
  | inr last ↦ (0, omega arith, rw last (ground arith), λ i lt. absurd (omega arith), ground arith)
]
  where
    earlier :
        (k : ℕ)
        → m a ≡ m b
        → ((i : ℕ) → i < k → m (a + 1 + i) ≡ m (b + 1 + i))
        → (i : ℕ) → i < suc k
        → m (a + i) ≡ m (b + i)
    earlier k here same zero lt = ground arith
    earlier k here same (suc i) lt = ground (arith, same i)
