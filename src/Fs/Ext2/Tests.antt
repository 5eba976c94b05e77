-- ===== src/Fs/Ext2/Tests.antt =====
-- Concrete runs of fs/ext2.c on a disk that holds a root directory with one file.

use loos_lab.Base.{
  ℕ, ◌+◌, ◌-◌, ◌<◌, min, ◌≡◌, refl, some, List, [], ◌∷◌, arith, ◌==◌, if◌then◌else◌,
}
use loos_lab.Base.Int.{pos, negsuc}
use loos_lab.Base.Run.{done}
use loos_lab.Memory.{Mem, within}
use loos_lab.Fs.Ext2.{
  i_mode, i_size, Ext2Fs, Machine, new_page, read_block, from_offset, ext2_get_inode,
}
use loos_lab.Fs.Ext2.Data.{get_physical_block, ext2_fread}
use loos_lab.Fs.Ext2.Dir.{ext2_read_dir, find_dir_entry, ext2_path_lookup}
use loos_lab.Fs.Ext2.Inode.{inode_address, ext2_get_inode-inode_address}
use loos_lab.Fs.Ext2.Search.{over, next}
use loos_lab.Fs.Ext2.Walk.{Listing, find_dir_entry-ext2_read_dir, no_block, block}
use loos_lab.Fs.Ext2.Tree.{block_of, get_physical_block-block_of}
use loos_lab.Fs.Ext2.Content.{file_byte, ext2_fread-file_byte}
use loos_lab.Fs.Ext2.Path.{Resolves, ext2_path_lookup-Resolves, here, into}

-- The bytes other than 0, by address.
abbrev pub byte_at : List (ℕ × ℕ) → ℕ → ℕ
byte_at [] x = 0
byte_at ((a, v) ∷ rest) x = if x == a then v else byte_at rest x

-- The inode table of group 0 is at block 5. Inode 2, at 5248, is the root directory, with block 6; inode 3, at
-- 5376, is a file of 5 bytes in block 7. The directory holds one entry, "f".
abbrev pub disk : ℕ → ℕ
disk = byte_at (
    (2056, 5)
    ∷ (5249, 64)
    ∷ (5288, 6)
    ∷ (5377, 128)
    ∷ (5380, 5)
    ∷ (5416, 7)
    ∷ (6144, 3)
    ∷ (6149, 4)
    ∷ (6150, 1)
    ∷ (6152, 102)
    ∷ (7168, 104)
    ∷ (7169, 101)
    ∷ (7170, 108)
    ∷ (7171, 108)
    ∷ (7172, 111)
    ∷ [])

abbrev pub machine : Machine
machine = record { disk = disk; stack = λ x. 9 }

abbrev pub nothing : Mem
nothing x = 0

-- 16 inodes, all in one group, of 128 bytes; the first data block is block 1.
abbrev pub fs : Ext2Fs
fs = record {
  sb = byte_at ((0, 16) ∷ (20, 1) ∷ (40, 16) ∷ (88, 128) ∷ []);
  gd = nothing;
  block_size = 1024;
  inode_size = 0;
  blocks_per_group = 0;
}

-- An inode as it stands in the block of the table.
abbrev root : Mem
root = from_offset (read_block machine 5 new_page) 128

abbrev file : Mem
file = from_offset (read_block machine 5 new_page) 256

-- "/f" at address 1
abbrev path : Mem
path = byte_at ((1, 47) ∷ (2, 102) ∷ [])

abbrev listed : List (List ℕ × ℕ)
listed = ((102 ∷ []), 3) ∷ []

listed-Listing : (old : Mem) → Listing machine fs root 12 0 old listed
unfolding read_block
listed-Listing old =
    block listed [] (omega arith) (next (omega arith) (omega arith) (over (omega arith)))
      (no_block refl)

ext2_get_inode-inode_address_example :
    (found : Mem) × (ext2_get_inode machine fs 3 nothing
      ≡ done (if i_mode found == 0 then negsuc 4 else pos 0, found))
    × ((x : ℕ) → x < 128 → found x ≡ disk (inode_address machine (Ext2Fs.sb fs) 3 + x))
ext2_get_inode-inode_address_example =
    ext2_get_inode-inode_address machine fs 3 nothing refl refl (omega arith) (omega arith) 0 2 refl
      refl (omega arith) (omega arith) (omega arith)

get_physical_block-block_of_example :
    get_physical_block machine 1024 file 300 ≡ block_of machine file 300
get_physical_block-block_of_example = get_physical_block-block_of machine file 300 (omega arith)

ext2_fread-file_byte_example :
    (mem' : Mem) × (ext2_fread (10 + 1) machine fs file nothing 100 10
      ≡ done (min 10 (i_size file), mem'))
    × ((x : ℕ)
        → mem' x ≡ (
            if within 100 (min 10 (i_size file)) x
            then file_byte machine file (x - 100)
            else nothing x))
ext2_fread-file_byte_example =
    ext2_fread-file_byte machine fs file nothing 100 10 refl (omega arith)

find_dir_entry-ext2_read_dir_example :
    (ext2_read_dir (1024 + 1) machine fs root ≡ done listed)
    × (find_dir_entry (1024 + 1) machine fs root (102 ∷ []) ≡ done (some 3))
find_dir_entry-ext2_read_dir_example =
    find_dir_entry-ext2_read_dir (102 ∷ []) refl (listed-Listing new_page) (listed-Listing (λ x. 9))

file-Resolves : Resolves 1025 machine fs root ((102 ∷ []) ∷ []) file
unfolding ext2_get_inode read_block
file-Resolves = into (102 ∷ []) 3 refl found refl here
  where
    found : find_dir_entry 1025 machine fs root (102 ∷ []) ≡ done (some 3)
    found =
        (find_dir_entry-ext2_read_dir (102 ∷ []) refl (listed-Listing new_page)
          (listed-Listing (λ x. 9))).1

root_read : ext2_get_inode machine fs 2 nothing ≡ done (pos 0, root)
unfolding ext2_get_inode
root_read = refl

ext2_path_lookup-Resolves_example :
    ext2_path_lookup (1 + 1) 1025 machine fs path 1 nothing nothing ≡ done (pos 0, file)
ext2_path_lookup-Resolves_example =
    ext2_path_lookup-Resolves 1025 path 1 nothing nothing root_read file-Resolves
      (refl, omega arith, (refl, omega arith, refl)) ((refl, omega arith, omega arith), tt)
      (omega arith)
