-- ===== src/Core/Syscall/Sendfile.antt =====
-- `sys_sendfile` of core/syscall.c from a file: `read` starts at the first byte every time.

use loos_lab.Fs.Read.Again.{read-read}
use loos_lab.Base.{
  ℕ, zero, suc, ◌+◌, ◌%◌, ◌^◌, ◌≤◌, ◌<◌, min, ◌≡◌, refl, ◌≢◌, ◌⊎◌, inl, inr, false, ◌||◌, List, [],
  ◌++◌, arith, leb, ◌==◌, Bool-cases,
}
use loos_lab.Base.Int.{ℤ, pos, negsuc}
use loos_lab.Base.Run.{done, out_of_fuel}
use loos_lab.Fs.Files.{File, Fd, Files, file, desc, fd_to_fds, fd_invalid, bytes_from, write}
use loos_lab.Fs.Ext2.{i_size, Ext2Fs, Machine}
use loos_lab.Fs.Read.{memory, with_memory, inode_at, read}
use loos_lab.Libc.Stdio.{int_of}
use loos_lab.Core.Syscall.{sendfile_loop, sys_sendfile}

write_done :
    (t : Files) (fd : ℤ) (buf count : ℕ) → (r : ℤ × List ℕ) × (write t fd buf count ≡ done r)
unfolding write fd_invalid fd_to_fds
write_done t (negsuc n) buf count = ((negsuc 0, []), refl)
write_done t (pos fd) buf count = elim (Bool-cases (leb 256 fd || Fd.busy (desc t fd) == 0)) [
  | inl e ↦ ((negsuc 0, []), rw e refl)
  | inr e ↦ elim (Bool-cases (Fd.fds_index (desc t fd) == 1 || Fd.fds_index (desc t fd) == 2)) [
    | inl c ↦ ((pos count, bytes_from (memory t) buf count), rw (e, busy e, c) refl)
    | inr c ↦ ((pos 0, []), rw (e, busy e, c) refl)
  ]
]
  where
    busy : (leb 256 fd || Fd.busy (desc t fd) == 0) ≡ false → (Fd.busy (desc t fd) == 0) ≡ false
    busy e = ground (arith, e)

module _ (fuel : ℕ) (m : Machine) (e2fs : Ext2Fs) (out_fd in_fd : ℤ) (buf : ℕ)
    (reads : ℕ → List (ℕ × ℕ)) where
  sendfile_fixed :
      (rounds total : ℕ) (sent : List ℕ) (t : Files)
      → ((later : List (ℕ × ℕ)) → read fuel m e2fs later t in_fd buf 1 ≡ done (1, t))
      → sendfile_loop rounds fuel m e2fs reads t out_fd in_fd buf total sent ≡ out_of_fuel
  unfolding sendfile_loop
  sendfile_fixed zero total sent t h = refl
  sendfile_fixed (suc n) total sent t h =
      let (r, w) = write_done t out_fd buf 1 in
      rw (h (reads n), w) (sendfile_fixed n ((total + 1) % 2 ^ 64) (sent ++ r.1) t h)

-- With blocks of 1024 bytes, `sys_sendfile` without an offset from a file that is open, is not the console and is not
-- empty never ends, whatever it writes to: no number of rounds is enough.
pub sys_sendfile_stuck :
    (rounds : ℕ) (m : Machine) (e2fs : Ext2Fs) (reads : ℕ → List (ℕ × ℕ)) (t : Files)
    (out_fd fd buf i a : ℕ)
    → Ext2Fs.block_size e2fs ≡ 1024
    → fd < 2 ^ 31
    → fd_invalid t (pos fd) ≡ false
    → Fd.fds_index (desc t fd) ≡ i
    → i ≢ 0
    → File.f_inode (file t i) ≡ a
    → i_size (inode_at (memory t) a) ≢ 0
    → (buf + 1 ≤ a) ⊎ (a + 128 ≤ buf)
    → sys_sendfile rounds 2 m e2fs reads t out_fd fd 0 buf ≡ out_of_fuel
unfolding sys_sendfile sendfile_loop
sys_sendfile_stuck zero m e2fs reads t out_fd fd buf i a blocks int opened ei ne ea some_bytes
      apart =
    refl
sys_sendfile_stuck (suc n) m e2fs reads t out_fd fd buf i a blocks int opened ei ne ea some_bytes
      apart =
    let (mem, eq, same, again) =
      read-read m e2fs (reads n) t fd buf 1 i a blocks opened ei ne ea (omega arith) apart in
    let one : min 1 (i_size (inode_at (memory t) a)) ≡ 1 = omega (arith, some_bytes) in
    let t' = with_memory t mem in
    let (r, w) = write_done t' (int_of out_fd) buf 1 in
    let self : int_of fd ≡ pos fd = ground (arith, int) in
    rw (self, eq, one, w)
      (sendfile_fixed 2 m e2fs (int_of out_fd) (pos fd) buf reads n ((0 + 1) % 2 ^ 64) ([] ++ r.1)
        t' (λ later. rw one at (again later)))
