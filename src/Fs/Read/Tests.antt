-- ===== src/Fs/Read/Tests.antt =====
-- A concrete run of `read` of fs/ext2_fs.c.

use loos_lab.Base.{ℕ, ◌+◌, ◌-◌, min, ◌≡◌, refl, inl, false, List, [], ◌∷◌, arith, if◌then◌else◌}
use loos_lab.Base.Int.{pos}
use loos_lab.Base.Run.{done}
use loos_lab.Memory.{Mem, within}
use loos_lab.Fs.Files.{Files, no_file, std_fd, fd_invalid}
use loos_lab.Fs.Ext2.{i_size}
use loos_lab.Fs.Ext2.Content.{file_byte}
use loos_lab.Fs.Ext2.Tests.{byte_at, machine, fs}
use loos_lab.Fs.Read.{with_memory, inode_at, read}
use loos_lab.Fs.Read.Again.{read-read}

-- The inode of a file of 5 bytes in block 7 is at 20480.
abbrev pub mem : Mem
mem = byte_at ((20481, 128) ∷ (20484, 5) ∷ (20520, 7) ∷ [])

-- Descriptor 3 is open on that file.
abbrev pub opened : Files
opened = record {
  kmem = record { mem = mem; freelist = 0 };
  fds = no_file ∷ no_file ∷ no_file ∷ record no_file { f_inode = 20480; alloc = 1 } ∷ [];
  fdtable = std_fd 0 ∷ std_fd 1 ∷ std_fd 2 ∷ std_fd 3 ∷ [];
}

pub opened_valid : fd_invalid opened (pos 3) ≡ false
unfolding fd_invalid
opened_valid = refl

read-read_example :
    (mem' : Mem) × (read (10 + 1) machine fs [] opened (pos 3) 100 10
      ≡ done (min 10 (i_size (inode_at mem 20480)), with_memory opened mem'))
    × ((x : ℕ)
        → mem' x ≡ (
            if within 100 (min 10 (i_size (inode_at mem 20480))) x
            then file_byte machine (inode_at mem 20480) (x - 100)
            else mem x))
    × ((later : List (ℕ × ℕ))
        → read (10 + 1) machine fs later (with_memory opened mem') (pos 3) 100 10
          ≡ done (min 10 (i_size (inode_at mem 20480)), with_memory opened mem'))
read-read_example =
    read-read machine fs [] opened 3 100 10 3 20480 refl opened_valid refl (omega arith) refl
      (omega arith) (inl (omega arith))
