-- ===== src/Fs/Ext2.antt =====
-- fs/ext2.c and include/ext2.h: the packed structs, blocks, the superblock and inodes. A struct is the function
-- from offsets to its bytes. The disk is the function from byte addresses to the bytes that `ahci_read` brings.
pub mod Dir
pub mod Data
pub mod Inode
pub mod Search
pub mod Walk
pub mod Component
pub mod Path
pub mod Tree
pub mod Content
pub mod Tests
use loos_lab.Base.{
  ℕ, zero, suc, ◌+◌, ◌-◌, ◌*◌, ◌/◌, ◌%◌, ◌^◌, Bool, ◌&&◌, ◌||◌, List, [], ◌∷◌, ltb, ◌==◌,
  if◌then◌else◌,
}
use loos_lab.Base.Int.{ℤ, pos, negsuc}
use loos_lab.Base.Run.{Run, done, halted}
use loos_lab.Mm.Layout.{pg_size}
use loos_lab.Memory.{Mem}

abbrev pub u32 : ℕ → ℕ
u32 n = n % 2 ^ 32

abbrev pub get16 : Mem → ℕ → ℕ
get16 m a = m a + 256 * m (a + 1)

abbrev pub get32 : Mem → ℕ → ℕ
get32 m a = m a + 256 * (m (a + 1) + 256 * (m (a + 2) + 256 * m (a + 3)))

-- The widths of the fields of a packed struct, in order; where a field stands, and the size.
abbrev pub offset_of : List ℕ → ℕ → ℕ
offset_of [] i = 0
offset_of (w ∷ ws) zero = 0
offset_of (w ∷ ws) (suc i) = w + offset_of ws i

abbrev pub size_of : List ℕ → ℕ
size_of [] = 0
size_of (w ∷ ws) = w + size_of ws

-- `struct ext2_superblock`, from `s_inodes_count` to `s_reserved`
abbrev pub superblock_layout : List ℕ
superblock_layout =
    4 ∷ 4 ∷ 4 ∷ 4 ∷ 4 ∷ 4 ∷ 4 ∷ 4 ∷ 4 ∷ 4 ∷ 4 ∷ 4 ∷ 4 ∷ 2 ∷ 2 ∷ 2 ∷ 2 ∷ 2 ∷ 2 ∷ 4 ∷ 4 ∷ 4 ∷ 4 ∷ 2
    ∷ 2 ∷ 4 ∷ 2 ∷ 2 ∷ 4 ∷ 4 ∷ 4 ∷ 16 ∷ 16 ∷ 64 ∷ 4 ∷ 1 ∷ 1 ∷ 2 ∷ 16 ∷ 4 ∷ 4 ∷ 4 ∷ 16 ∷ 1 ∷ 3 ∷ 4 ∷ 4
    ∷ 760 ∷ []

-- `struct ext2_group_desc`
abbrev pub group_desc_layout : List ℕ
group_desc_layout = 4 ∷ 4 ∷ 4 ∷ 2 ∷ 2 ∷ 2 ∷ 2 ∷ 12 ∷ []

-- `struct ext2_inode`; `i_block` and the union `i_osd2` are one field each.
abbrev pub inode_layout : List ℕ
inode_layout = 2 ∷ 2 ∷ 4 ∷ 4 ∷ 4 ∷ 4 ∷ 4 ∷ 2 ∷ 2 ∷ 4 ∷ 4 ∷ 4 ∷ 60 ∷ 4 ∷ 4 ∷ 4 ∷ 4 ∷ 12 ∷ []

-- `struct ext2_dir_entry` before `name`
abbrev pub dir_entry_layout : List ℕ
dir_entry_layout = 4 ∷ 2 ∷ 1 ∷ 1 ∷ []

abbrev pub s_inodes_count : Mem → ℕ
s_inodes_count sb = get32 sb (offset_of superblock_layout 0)

abbrev pub s_first_data_block : Mem → ℕ
s_first_data_block sb = get32 sb (offset_of superblock_layout 5)

abbrev pub s_log_block_size : Mem → ℕ
s_log_block_size sb = get32 sb (offset_of superblock_layout 6)

abbrev pub s_inodes_per_group : Mem → ℕ
s_inodes_per_group sb = get32 sb (offset_of superblock_layout 10)

abbrev pub s_magic : Mem → ℕ
s_magic sb = get16 sb (offset_of superblock_layout 15)

abbrev pub s_inode_size : Mem → ℕ
s_inode_size sb = get16 sb (offset_of superblock_layout 26)

abbrev pub bg_inode_table : Mem → ℕ
bg_inode_table gd = get32 gd (offset_of group_desc_layout 2)

abbrev pub i_mode : Mem → ℕ
i_mode inode = get16 inode (offset_of inode_layout 0)

abbrev pub i_size : Mem → ℕ
i_size inode = get32 inode (offset_of inode_layout 2)

abbrev pub i_block : Mem → ℕ → ℕ
i_block inode i = get32 inode (offset_of inode_layout 12 + 4 * i)

pub record Ext2Fs : Type 0 where
  pub sb : Mem
  pub gd : Mem
  pub block_size : ℕ
  pub inode_size : ℕ
  pub blocks_per_group : ℕ

-- What the code finds outside itself: the bytes of the disk, and those that a new array on the stack happens to
-- hold.
pub record Machine : Type 0 where
  pub disk : ℕ → ℕ
  pub stack : Mem

-- The bytes that `kmalloc` leaves in a page. It panics when no page is free, and so never answers NULL: the code
-- that looks for NULL is not reached. That a page is free is taken for granted here.
abbrev pub new_page : Mem
new_page x = 5

-- `kmalloc` panics on a size above a page; the size is taken as an `int`.
abbrev pub too_big : ℕ → Bool
too_big size = ltb pg_size size && ltb size (2 ^ 31)

-- `BLOCK_SIZE`
abbrev pub block_bytes : ℕ
block_bytes = 1024

-- `read_block`: two sectors of 512 bytes, over the first `BLOCK_SIZE` bytes of the buffer `buf`.
unfoldable pub read_block : Machine → (block_offset : ℕ) → (buf : Mem) → Mem
read_block m block_offset buf x =
    if ltb x block_bytes then Machine.disk m (u32 (block_offset * 2) * 512 + x) else buf x

unfoldable pub ext2_read_superblock : Machine → Ext2Fs → (block_offset : ℕ) → ℤ × Ext2Fs
unfolding read_block
ext2_read_superblock m fs block_offset =
    let new = read_block m block_offset new_page in
    if s_magic new == 0xef53
    then (pos 0, record fs { sb = new; block_size = u32 (1024 * 2 ^ s_log_block_size new) })
    else (negsuc 0, record fs { sb = new })

unfoldable pub ext2_read_group_desc : Machine → Ext2Fs → Ext2Fs
unfolding read_block
ext2_read_group_desc m fs =
    let bgd_block = if Ext2Fs.block_size fs == 1024 then 2 else 1 in
    record fs { gd = read_block m bgd_block new_page }

-- The bytes of a struct that stands at an offset of a buffer.
abbrev pub from_offset : Mem → ℕ → Mem
from_offset buf a x = buf (a + x)

-- `ext2_get_inode`: the code, and `*inode`. `read_block` always answers 0, so -2 and -4 are never returned.
unfoldable pub ext2_get_inode : Machine → Ext2Fs → (inode_num : ℕ) → (inode : Mem) → Run (ℤ × Mem)
unfolding read_block
ext2_get_inode m fs inode_num inode =
    let sb = Ext2Fs.sb fs in
    let block_size = Ext2Fs.block_size fs in
    let group = (inode_num - 1) / s_inodes_per_group sb in
    let index = (inode_num - 1) % s_inodes_per_group sb in
    let bgdt_start_block = u32 (s_first_data_block sb + 1) in
    let desc_per_block = block_size / size_of group_desc_layout in
    let desc_block = u32 (bgdt_start_block + group / desc_per_block) in
    let desc_offset = u32 (group % desc_per_block * size_of group_desc_layout) in
    let desc_buf = read_block m desc_block new_page in
    let inode_table_block = bg_inode_table (from_offset desc_buf desc_offset) in
    let inode_offset = u32 (index * s_inode_size sb) in
    let block_offset = u32 (inode_table_block + inode_offset / block_size) in
    let intra_block_offset = inode_offset % block_size in
    let block_buf = read_block m block_offset new_page in
    let found = from_offset block_buf intra_block_offset in
    if inode_num == 0 || ltb (s_inodes_count sb) inode_num
    then done (negsuc 0, inode)
    else if too_big block_size
    then halted
    else if ltb block_size (intra_block_offset + size_of inode_layout)
    then done (negsuc 2, inode)
    else if i_mode found == 0
    then done (negsuc 4, found)
    else done (pos 0, found)

unfoldable pub ext2_check : (buf : Mem) → Bool
ext2_check buf = s_magic (from_offset buf 1024) == 0xef53

unfoldable pub ext2_type_to_dtype : ℕ → ℕ
ext2_type_to_dtype t =
    if t == 0
    then 0
    else if t == 1
    then 8
    else if t == 2
    then 4
    else if t == 3
    then 2
    else if t == 4
    then 6
    else if t == 5
    then 1
    else if t == 6
    then 12
    else if t == 7
    then 10
    else 0
