-- ===== src/Fs/Read.antt =====
-- fs/ext2_fs.c together with fs/ext2.c and driver/uart.c: `open` from its path on, and `read`.
pub mod Again
pub mod Tests
use loos_lab.Base.{
  ℕ, ◌+◌, ◌-◌, ◌^◌, none, some, List, [], ◌∷◌, ltb, ◌==◌, if◌then◌else◌, length, get_or,
}
use loos_lab.Base.Int.{ℤ, pos, negsuc}
use loos_lab.Base.Run.{Run, ◌>>=◌, done}
use loos_lab.Memory.{Mem}
use loos_lab.Mm.Memblock.{Kmem}
use loos_lab.Driver.Uart.{getstr}
use loos_lab.Fs.Files.{File, Files, file, fd_to_fds, open_found, fd_invalid}
use loos_lab.Fs.Ext2.{u32, Ext2Fs, Machine}
use loos_lab.Fs.Ext2.Data.{copy_block, ext2_fread}
use loos_lab.Fs.Ext2.Dir.{is_zero, ext2_path_lookup}

abbrev pub memory : Files → Mem
memory t = Kmem.mem (Files.kmem t)

abbrev pub with_memory : Files → Mem → Files
with_memory t mem = record t { kmem = record (Files.kmem t) { mem = mem } }

-- The 128 bytes of `struct ext2_inode` at an address.
unfoldable pub inode_at : Mem → ℕ → Mem
inode_at mem a x = if ltb x 128 then mem (a + x) else 0

-- `open`; its variable `inode` is at the address `local`, and the path at `pathname`.
unfoldable pub open_file :
    (rounds fuel : ℕ) → Machine → Ext2Fs → Files → (pathname local flags : ℕ) → Run (ℤ × Files)
unfolding ext2_path_lookup open_found copy_block inode_at
open_file rounds fuel m e2fs t pathname local flags = do
  (ret, inode) ←
      ext2_path_lookup rounds fuel m e2fs (memory t) pathname (Machine.stack m)
        (inode_at (memory t) local)
  if is_zero ret
      then open_found (with_memory t (copy_block (memory t) local inode 0 128)) (some local) flags
      else open_found t none flags

unfoldable pub openat :
    (rounds fuel : ℕ)
    → Machine
    → Ext2Fs
    → Files
    → (dirfd : ℤ) → (pathname local flags : ℕ) → Run (ℤ × Files)
unfolding open_file
openat rounds fuel m e2fs t dirfd pathname local flags =
    open_file rounds fuel m e2fs t pathname local flags

unfoldable pub lseek : Files → (fd : ℤ) → (offset whence : ℤ) → ℤ
unfolding fd_invalid
lseek t fd offset whence = if fd_invalid t fd then negsuc 0 else negsuc 0

unfoldable pub mkdir : (dirfd : ℤ) → (pathname : ℕ) → (mode : ℤ) → ℤ
mkdir dirfd pathname mode = pos 0

unfoldable pub unlinkat : (dirfd : ℤ) → (pathname : ℕ) → (flags : ℤ) → ℤ
unlinkat dirfd pathname flags = negsuc 0

-- The characters in front of the first terminator, which `strlen` counts.
abbrev pub before_zero : List ℕ → List ℕ
before_zero [] = []
before_zero (c ∷ cs) = if c == 0 then [] else (c ∷ before_zero cs)

-- `read`: the answer as a `size_t`. `reads` is what the console gives; `inode` of the file is not in the buffer.
unfoldable pub read :
    (fuel : ℕ)
    → Machine
    → Ext2Fs
    → List (ℕ × ℕ)
    → Files
    → (fd : ℤ) → (buf count : ℕ) → Run (ℕ × Files)
unfolding getstr ext2_fread copy_block inode_at
read fuel m e2fs reads t (negsuc n) buf count = done (2 ^ 64 - 1, t)
read fuel m e2fs reads t (pos fd) buf count =
    if fd_invalid t (pos fd) then done (2 ^ 64 - 1, t) else do
      f ← fd_to_fds t fd
      if f == 0
          then (do
            line ← getstr reads count
            let str = before_zero line
            done (
              length str,
              with_memory t (copy_block (memory t) buf (λ i. get_or str i 0) 0 (length str)),
            ))
          else (do
            (size, mem) ←
                ext2_fread fuel m e2fs (inode_at (memory t) (File.f_inode (file t f))) (memory t)
                  buf (u32 count)
            done (size, with_memory t mem))
