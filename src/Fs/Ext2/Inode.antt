-- ===== src/Fs/Ext2/Inode.antt =====
-- `ext2_get_inode` of fs/ext2.c, for blocks of 1024 bytes: where an inode is found on the disk.

use loos_lab.Base.Int.{ℤ, pos, negsuc}
use loos_lab.Base.Run.{Run, done}
use native.Mathlib.Nat.{add-zero}
use loos_lab.Base.{
  ℕ, ◌+◌, ◌-◌, ◌*◌, ◌/◌, ◌%◌, ◌^◌, ◌≤◌, ◌<◌, ◌≡◌, refl, sym, ap, ◌∙◌, Bool, true, false, arith,
  ◌==◌, if◌then◌else◌, lt→ltb, le→ltb, ne→==,
}
use loos_lab.Memory.{Mem}
use loos_lab.Fs.Ext2.{
  u32, get32, s_inodes_count, s_first_data_block, s_inodes_per_group, s_inode_size, bg_inode_table,
  i_mode, Ext2Fs, Machine, new_page, read_block, from_offset, ext2_get_inode,
}

-- A block is read whole: byte `o % 1024 + x` of the block in which the offset `o` from block `b` lies.
pub read_block_flat :
    (m : Machine) (buf : Mem) (b o x : ℕ)
    → o % 1024 + x < 1024
    → b + o / 1024 < 2 ^ 31
    → read_block m (u32 (b + o / 1024)) buf (o % 1024 + x) ≡ Machine.disk m (b * 1024 + o + x)
unfolding read_block
read_block_flat m buf b o x h lt =
    rw (lt→ltb (o % 1024 + x) 1024 h) (ap (Machine.disk m) (omega arith))

-- The 32-bit number at an address of the disk.
abbrev pub disk32 : Machine → ℕ → ℕ
disk32 m a = get32 (Machine.disk m) a

-- Group `group` has its inode table at this block.
abbrev pub table_of : Machine → (sb : Mem) → (group : ℕ) → ℕ
table_of m sb group = disk32 m ((s_first_data_block sb + 1) * 1024 + group * 32 + 8)

-- The address of an inode on the disk: the inodes of a group stand in a row from the table on.
unfoldable pub inode_address : Machine → (sb : Mem) → (inode_num : ℕ) → ℕ
inode_address m sb inode_num =
    table_of m sb ((inode_num - 1) / s_inodes_per_group sb) * 1024
    + (inode_num - 1) % s_inodes_per_group sb * s_inode_size sb

module _ (m : Machine) (first group : ℕ) where
  desc_byte :
      (x : ℕ)
      → x < 32
      → first + 1 + group / 32 < 2 ^ 31
      → read_block m (u32 (u32 (first + 1) + group / 32)) new_page (u32 (group % 32 * 32) + x)
        ≡ Machine.disk m ((first + 1) * 1024 + group * 32 + x)
  unfolding read_block
  desc_byte x h lt =
      rw (lt→ltb (u32 (group % 32 * 32) + x) 1024 (omega arith)) (ap (Machine.disk m) (omega arith))

get32_at : (p q : Mem) (a b : ℕ) → ((x : ℕ) → x < 4 → p (a + x) ≡ q (b + x)) → get32 p a ≡ get32 q b
get32_at p q a b h = omega (
  arith,
  ap p (sym (add-zero a)) ∙ h 0 (omega arith) ∙ ap q (add-zero b),
  h 1 (omega arith),
  h 2 (omega arith),
  h 3 (omega arith),
)

module _ (m : Machine) (sb : Mem) (group : ℕ) where
  desc_table :
      s_first_data_block sb + 1 + group / 32 < 2 ^ 31
      → bg_inode_table (
          from_offset
            (read_block m (u32 (u32 (s_first_data_block sb + 1) + group / 32)) new_page)
            (u32 (group % 32 * 32)))
        ≡ table_of m sb group
  desc_table lt =
      get32_at
        (from_offset (read_block m (u32 (u32 (s_first_data_block sb + 1) + group / 32)) new_page)
          (u32 (group % 32 * 32)))
        (Machine.disk m) 8 ((s_first_data_block sb + 1) * 1024 + group * 32 + 8)
        (λ x h.
          desc_byte m (s_first_data_block sb) group (8 + x) (omega arith) lt
          ∙ ap (Machine.disk m) (omega arith))

choose :
    (c : Bool) (found : Mem)
    → if◌then◌else◌ {A = Run (ℤ × Mem)} c (done (negsuc 4, found)) (done (pos 0, found))
      ≡ done (if c then negsuc 4 else pos 0, found)
choose true found = refl
choose false found = refl

-- With blocks of 1024 bytes and inodes of 128, and blocks and offsets in range, `ext2_get_inode` of a number from 1
-- to the count of inodes brings the 128 bytes at the address of that inode; the code is -5 for an inode of
-- mode 0, and 0 otherwise.
pub ext2_get_inode-inode_address :
    (m : Machine) (fs : Ext2Fs) (num : ℕ) (inode : Mem)
    → Ext2Fs.block_size fs ≡ 1024
    → s_inode_size (Ext2Fs.sb fs) ≡ 128
    → 1 ≤ num
    → num ≤ s_inodes_count (Ext2Fs.sb fs)
    → (group index : ℕ) → group ≡ (num - 1) / s_inodes_per_group (Ext2Fs.sb fs)
    → index ≡ (num - 1) % s_inodes_per_group (Ext2Fs.sb fs)
    → s_first_data_block (Ext2Fs.sb fs) + 1 + group / 32 < 2 ^ 31
    → index < 2 ^ 25
    → table_of m (Ext2Fs.sb fs) group + index / 8 < 2 ^ 31
    → (found : Mem) × (ext2_get_inode m fs num inode
        ≡ done (if i_mode found == 0 then negsuc 4 else pos 0, found))
      × ((x : ℕ) → x < 128 → found x ≡ Machine.disk m (inode_address m (Ext2Fs.sb fs) num + x))
unfolding ext2_get_inode inode_address
ext2_get_inode-inode_address m fs num inode blocks size one last group index eg ei a b c =
    let sb = Ext2Fs.sb fs in
    let o = index * 128 in
    let t = table_of m sb group in
    let found : Mem = from_offset (read_block m (u32 (t + o / 1024)) new_page) (o % 1024) in
    let small : u32 (index * 128) ≡ index * 128 = omega arith in
    (
      found,
      rw
          (
            blocks,
            size,
            sym eg,
            sym ei,
            desc_table m sb group a,
            small,
            ne→== num 0 (omega arith),
            le→ltb (s_inodes_count sb) num last,
            le→ltb 1024 (o % 1024 + 128) (omega arith),
          )
          (choose (i_mode found == 0) found),
      λ x h.
          read_block_flat m new_page t o x (omega arith) (omega arith)
          ∙ ap (λ a. Machine.disk m (a + x)) (rw (size, sym eg, sym ei) refl),
    )
