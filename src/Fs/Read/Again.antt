-- ===== src/Fs/Read/Again.antt =====
-- `read` of fs/ext2_fs.c from an open file.

use loos_lab.Base.{
  ℕ, ◌+◌, ◌-◌, ◌^◌, ◌≤◌, ◌<◌, min, ◌≡◌, refl, ◌∙◌, fun_ext, ◌≢◌, ◌⊎◌, inl, inr, false, List, arith,
  ltb, ◌==◌, if◌then◌else◌, ne→==, Bool-cases,
}
use loos_lab.Base.Int.{pos}
use loos_lab.Base.Run.{done}
use loos_lab.Memory.{Mem, within}
use loos_lab.Fs.Files.{File, Fd, Files, file, desc, fd_to_fds, fd_invalid}
use loos_lab.Fs.Ext2.{u32, i_size, Ext2Fs, Machine}
use loos_lab.Fs.Ext2.Content.{file_byte, ext2_fread-file_byte}
use loos_lab.Fs.Read.{memory, with_memory, inode_at, read}

read_lem :
    (m : Machine) (e2fs : Ext2Fs) (reads : List (ℕ × ℕ)) (t : Files) (fd buf count i a : ℕ)
    → Ext2Fs.block_size e2fs ≡ 1024
    → fd_invalid t (pos fd) ≡ false
    → Fd.fds_index (desc t fd) ≡ i
    → i ≢ 0
    → File.f_inode (file t i) ≡ a
    → count < 2 ^ 32
    → (mem : Mem) × (read (count + 1) m e2fs reads t (pos fd) buf count
        ≡ done (min count (i_size (inode_at (memory t) a)), with_memory t mem))
      × ((x : ℕ)
          → mem x ≡ (
              if within buf (min count (i_size (inode_at (memory t) a))) x
              then file_byte m (inode_at (memory t) a) (x - buf)
              else memory t x))
unfolding read fd_to_fds fd_invalid
read_lem m e2fs reads t fd buf count i a blocks opened ei ne ea word =
    let (mem, eq, same) =
      ext2_fread-file_byte m e2fs (inode_at (memory t) a) (memory t) buf count blocks word in
    let busy : (Fd.busy (desc t fd) == 0) ≡ false = ground (arith, opened) in
    let short : u32 count ≡ count = omega (arith, word) in
    (mem, rw (opened, busy, ei, ne→== i 0 ne, ea, short, eq) refl, same)

-- The inode outlives a read into a buffer off it.
inode_at_same :
    (mem mem' : Mem) (a : ℕ)
    → ((x : ℕ) → x < 128 → mem' (a + x) ≡ mem (a + x))
    → inode_at mem' a ≡ inode_at mem a
unfolding inode_at
inode_at_same mem mem' a h =
    fun_ext
      (λ x. elim (Bool-cases (ltb x 128)) [ inl e ↦ rw e (h x (ground arith)) | inr e ↦ rw e refl ])

off_buffer :
    (buf n count x v w : ℕ)
    → n ≤ count
    → (x < buf) ⊎ (buf + count ≤ x)
    → (if within buf n x then v else w) ≡ w
off_buffer buf n count x v w le o = ground arith

within_one :
    (a n x v w u : ℕ) → u ≡ (if within a n x then v else w) → (if within a n x then v else u) ≡ u
within_one a n x v w u e = ground arith

-- With blocks of 1024 bytes and `count` below 2 ^ 32, `read` of an open file other than the console into a buffer off
-- its inode answers the lesser of `count` and the size of the file and puts the bytes from the start of the file in the buffer; the same
-- call after that answers the same and changes nothing.
pub read-read :
    (m : Machine) (e2fs : Ext2Fs) (reads : List (ℕ × ℕ)) (t : Files) (fd buf count i a : ℕ)
    → Ext2Fs.block_size e2fs ≡ 1024
    → fd_invalid t (pos fd) ≡ false
    → Fd.fds_index (desc t fd) ≡ i
    → i ≢ 0
    → File.f_inode (file t i) ≡ a
    → count < 2 ^ 32
    → (buf + count ≤ a) ⊎ (a + 128 ≤ buf)
    → (mem : Mem) × (read (count + 1) m e2fs reads t (pos fd) buf count
        ≡ done (min count (i_size (inode_at (memory t) a)), with_memory t mem))
      × ((x : ℕ)
          → mem x ≡ (
              if within buf (min count (i_size (inode_at (memory t) a))) x
              then file_byte m (inode_at (memory t) a) (x - buf)
              else memory t x))
      × ((later : List (ℕ × ℕ))
          → read (count + 1) m e2fs later (with_memory t mem) (pos fd) buf count
            ≡ done (min count (i_size (inode_at (memory t) a)), with_memory t mem))
unfolding fd_invalid
read-read m e2fs reads t fd buf count i a blocks opened ei ne ea word apart =
    let (mem, eq, same) = read_lem m e2fs reads t fd buf count i a blocks opened ei ne ea word in
    let inode = inode_at (memory t) a in
    let n = min count (i_size inode) in
    let keep : inode_at mem a ≡ inode = inode_at_same (memory t) mem a (λ x h.
      same (a + x)
      ∙ off_buffer buf n count (a + x) (file_byte m inode (a + x - buf)) (memory t (a + x))
          (omega arith) (omega arith)) in
    (
      mem,
      eq,
      same,
      λ later.
          let (mem₂, eq₂, same₂) =
            read_lem m e2fs later (with_memory t mem) fd buf count i a blocks opened ei ne ea
              word in
          let again : mem₂ ≡ mem = fun_ext (λ x.
            rw keep at (same₂ x)
            ∙ within_one buf n x (file_byte m inode (x - buf)) (memory t x) (mem x) (same x)) in
          rw (keep, again) at eq₂,
    )
