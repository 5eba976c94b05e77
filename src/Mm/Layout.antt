-- ===== src/Mm/Layout.antt =====
-- include/memlayout.h, include/asm/mmu.h: page sizes, rounding, windows and page-table entries.
-- Addresses are numbers below 2 ^ 64.

use loos_lab.Base.{ℕ, ◌+◌, ◌-◌, ◌*◌, ◌/◌, ◌%◌, ◌^◌, ◌==◌, if◌then◌else◌}

abbrev pub pg_size : ℕ
pg_size = 16384

-- `(a) & ~(PGSIZE-1)`
unfoldable pub pg_round_down : ℕ → ℕ
pg_round_down a = a / pg_size * pg_size

-- `((sz)+PGSIZE-1) & ~(PGSIZE-1)` in 64 bits
unfoldable pub pg_round_up : ℕ → ℕ
unfolding pg_round_down
pg_round_up sz = pg_round_down ((sz + pg_size - 1) % 2 ^ 64)

abbrev pub kern_base : ℕ
kern_base = 0x9000000090000000

-- `PHYSTOP`
abbrev pub phys_top : ℕ
phys_top = kern_base + 128 * 1024 * 1024

-- `x | (1 << j)`
abbrev pub with_bit : ℕ → ℕ → ℕ
with_bit j x = if (x / 2 ^ j) % 2 == 0 then x + 2 ^ j else x

-- `PA2VA`: `x | MAIN_KERNEL_DMW`, which is bits 60 and 63
unfoldable pub pa2va : ℕ → ℕ
pa2va x = with_bit 63 (with_bit 60 x)

-- `PTE2PA` and `PA2PTE`: `x & (0xFFFFFFFFF << 14)`, bits 14 to 49
unfoldable pub pte2pa : ℕ → ℕ
pte2pa x = x / 2 ^ 14 % 2 ^ 36 * 2 ^ 14

-- `PTE_FLAGS`: `x & 0xE0000000000001FF`, bits 0 to 8 and 61 to 63 of a 64-bit word
unfoldable pub pte_flags : ℕ → ℕ
pte_flags x = x / 2 ^ 61 % 8 * 2 ^ 61 + x % 2 ^ 9

-- `PX(level, va)`: the 11 index bits of a level
unfoldable pub px : ℕ → ℕ → ℕ
px level va = va / 2 ^ (14 + 11 * level) % 2048

abbrev pub max_va : ℕ
max_va = 2 ^ 47

-- `PTE_P|PTE_W|PTE_MATL|PTE_D|PTE_V`
abbrev pub user_perm : ℕ
user_perm = 0x193
