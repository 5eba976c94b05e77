-- ===== src/Fs/Ext2/Data.antt =====
-- fs/ext2.c: the blocks of a file, and `ext2_fread`.

use loos_lab.Base.{ℕ, zero, suc, ◌+◌, ◌-◌, ◌*◌, ◌/◌, ◌%◌, ◌^◌, min, ltb, ◌==◌, if◌then◌else◌}
use loos_lab.Base.Run.{Run, done, out_of_fuel}
use loos_lab.Memory.{Mem, within, filled}
use loos_lab.Fs.Ext2.{u32, get32, i_size, i_block, Ext2Fs, Machine, read_block}

-- `a - b` on `uint32_t`
abbrev pub sub32 : ℕ → ℕ → ℕ
sub32 a b = u32 (a + 2 ^ 32 - b)

-- Entry `i` of the block of pointers that stands in block `b`.
unfoldable pub block_entry : Machine → (b i : ℕ) → ℕ
unfolding read_block
block_entry m b i = get32 (read_block m b (Machine.stack m)) (4 * i)

unfoldable pub get_physical_block :
    Machine → (block_size : ℕ) → (inode : Mem) → (logical_block : ℕ) → ℕ
unfolding block_entry
get_physical_block m block_size inode logical_block =
    let ptrs_per_block = block_size / 4 in
    let square = u32 (ptrs_per_block * ptrs_per_block) in
    let single = sub32 logical_block 12 in
    let double = sub32 single ptrs_per_block in
    let triple = sub32 double square in
    if ltb logical_block 12
    then i_block inode logical_block
    else if ltb single ptrs_per_block
    then block_entry m (i_block inode 12) single
    else if ltb double square
    then block_entry m (block_entry m (i_block inode 13) (double / ptrs_per_block))
        (double % ptrs_per_block)
    else block_entry m
        (block_entry m (block_entry m (i_block inode 14) (triple / square))
          (triple / ptrs_per_block % ptrs_per_block))
        (triple % ptrs_per_block)

-- `memcpy` from the buffer `src` on the stack, at `from`, to memory.
unfoldable pub copy_block : Mem → (dst : ℕ) → (src : Mem) → (from n : ℕ) → Mem
copy_block mem dst src from n x = if within dst n x then src (from + (x - dst)) else mem x

-- The loop of `ext2_fread`. A round reads at least one byte, so `count` rounds and the last test are enough.
unfoldable pub fread_loop :
    (fuel : ℕ)
    → Machine
    → (block_size : ℕ) → (inode : Mem) → Mem
    → (buf count bytes_read : ℕ) → Run (ℕ × Mem)
unfolding read_block get_physical_block copy_block filled
fread_loop zero m block_size inode mem buf count bytes_read = out_of_fuel
fread_loop (suc f) m block_size inode mem buf count bytes_read =
    let current_block = bytes_read / block_size in
    let block_offset = bytes_read % block_size in
    let bytes_to_copy = min (block_size - block_offset) (count - bytes_read) in
    let phys_block = get_physical_block m block_size inode current_block in
    let mem' =
      if phys_block == 0
      then filled mem (buf + bytes_read) 0 bytes_to_copy
      else copy_block mem (buf + bytes_read) (read_block m phys_block (Machine.stack m))
          block_offset bytes_to_copy in
    let rest = fread_loop f m block_size inode mem' buf count (u32 (bytes_read + bytes_to_copy)) in
    if ltb bytes_read count then rest else done (bytes_read, mem)

-- `ext2_fread`: `*size`, and the memory.
unfoldable pub ext2_fread :
    (fuel : ℕ) → Machine → Ext2Fs → (inode : Mem) → Mem → (buf count : ℕ) → Run (ℕ × Mem)
unfolding fread_loop
ext2_fread fuel m e2fs inode mem buf count =
    fread_loop fuel m (Ext2Fs.block_size e2fs) inode mem buf (min count (i_size inode)) 0
