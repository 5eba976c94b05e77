-- ===== src/Fs/Ext2/Tree.antt =====
-- `get_physical_block` of fs/ext2.c, for blocks of 1024 bytes: a file is a tree of blocks of pointers.

use loos_lab.Base.{
  ℕ, zero, suc, ◌+◌, ◌-◌, ◌/◌, ◌%◌, ◌^◌, ◌≤◌, ◌<◌, ◌≡◌, refl, sym, ap, ◌∙◌, inl, inr, arith, ltb,
  if◌then◌else◌, lt→ltb, le→ltb, Bool-cases,
}
use loos_lab.Memory.{Mem}
use loos_lab.Fs.Ext2.{i_block, Machine}
use loos_lab.Fs.Ext2.Data.{sub32, block_entry, get_physical_block}

-- Leaf `i` of the tree under block `b`, whose inner blocks, of 256 pointers each, are `depth` deep.
unfoldable pub leaf : (depth : ℕ) → Machine → (b i : ℕ) → ℕ
leaf zero m b i = b
leaf (suc depth) m b i = leaf depth m (block_entry m b (i / 256 ^ depth)) (i % 256 ^ depth)

-- The block numbers of a file in order: 12 direct ones, then the leaves of trees of depth 1, 2 and 3.
unfoldable pub block_of : Machine → (inode : Mem) → ℕ → ℕ
unfolding leaf
block_of m inode i =
    if ltb i 12
    then i_block inode i
    else if ltb i (12 + 256)
    then leaf 1 m (i_block inode 12) (i - 12)
    else if ltb i (12 + 256 + 256 ^ 2)
    then leaf 2 m (i_block inode 13) (i - (12 + 256))
    else leaf 3 m (i_block inode 14) (i - (12 + 256 + 256 ^ 2))

leaf1 : (m : Machine) (b i : ℕ) → leaf 1 m b i ≡ block_entry m b i
unfolding leaf
leaf1 m b i = ap (block_entry m b) (omega arith)

leaf2 : (m : Machine) (b i : ℕ) → leaf 2 m b i ≡ block_entry m (block_entry m b (i / 256)) (i % 256)
unfolding leaf
leaf2 m b i = leaf1 m (block_entry m b (i / 256)) (i % 256)

leaf3 :
    (m : Machine) (b i : ℕ)
    → leaf 3 m b i
      ≡ block_entry m (block_entry m (block_entry m b (i / 65536)) (i / 256 % 256)) (i % 256)
unfolding leaf
leaf3 m b i = leaf2 m (block_entry m b (i / 65536)) (i % 65536) ∙ rw (digit_middle, digit_last) refl
  where
    digit_middle : i % 65536 / 256 ≡ i / 256 % 256
    digit_middle = omega arith

    digit_last : i % 65536 % 256 ≡ i % 256
    digit_last = omega arith

sub32_le : (a b : ℕ) → b ≤ a → a < 2 ^ 32 → sub32 a b ≡ a - b
sub32_le a b le h = omega arith

-- With blocks of 1024 bytes, `get_physical_block` finds every block of a file that a tree of three levels can
-- hold: the direct blocks, then the leaves of the trees of one, two and three levels, in order.
pub get_physical_block-block_of :
    (m : Machine) (inode : Mem) (i : ℕ)
    → i < 12 + 256 + 256 ^ 2 + 256 ^ 3
    → get_physical_block m 1024 inode i ≡ block_of m inode i
unfolding get_physical_block block_of
get_physical_block-block_of m inode i h = elim (Bool-cases (ltb i 12)) [
  | inl e ↦ rw e refl
  | inr e ↦ elim (Bool-cases (ltb i (12 + 256))) [
    | inl e₁ ↦
        rw (e, e₁, sub32_le i 12 (ground arith) (omega arith), lt→ltb (i - 12) 256 (ground arith))
          (sym (leaf1 m (i_block inode 12) (i - 12)))
    | inr e₁ ↦ elim (Bool-cases (ltb i (12 + 256 + 256 ^ 2))) [
      | inl e₂ ↦
          rw
            (
              e,
              e₁,
              e₂,
              sub32_le i 12 (ground arith) (omega arith),
              le→ltb (i - 12) 256 (ground arith),
              second (ground arith),
              lt→ltb (i - (12 + 256)) 65536 (ground arith),
            )
            (sym (leaf2 m (i_block inode 13) (i - (12 + 256))))
      | inr e₂ ↦
          rw
            (
              e,
              e₁,
              e₂,
              sub32_le i 12 (ground arith) (omega arith),
              le→ltb (i - 12) 256 (ground arith),
              second (ground arith),
              le→ltb (i - (12 + 256)) 65536 (ground arith),
              third (ground arith),
            )
            (sym (leaf3 m (i_block inode 14) (i - (12 + 256 + 256 ^ 2))))
    ]
  ]
]
  where
    second : 268 ≤ i → sub32 (i - 12) 256 ≡ i - (12 + 256)
    second le = omega arith

    third : 65804 ≤ i → sub32 (i - (12 + 256)) 65536 ≡ i - (12 + 256 + 256 ^ 2)
    third le = omega arith
