-- ===== src/Fs/Files.antt =====
-- fs/ext2_fs.c and the descriptor tables of core/proc.c: the kernel's table of open files `fds`, and
-- the descriptor table of the current process. An `int` is kept as its 32 bits where it is counted, a
-- descriptor argument that the code tests for a sign is a ℤ, and 256 is MAX_FILES and MAX_FDTABLE.
pub mod Count
pub mod Share
pub mod Valid
pub mod Open
pub mod Replace
use loos_lab.Base.Int.{ℤ, pos, negsuc}
use loos_lab.Base.Run.{Run, ◌>>=◌, done, halted}
use loos_lab.Memory.{Mem}
use loos_lab.Base.{
  ℕ, zero, suc, ◌+◌, ◌-◌, ◌/◌, ◌%◌, ◌^◌, bit_or, Bool, true, ◌||◌, Option, none, some, List, [],
  ◌∷◌, leb, ◌==◌, if◌then◌else◌, get_or, set, drop, replicate,
}
use loos_lab.Mm.Memblock.{Kmem, kmalloc}
use loos_lab.Libc.Block.{memcpy}
use loos_lab.Mm.PageTable.{zeroed_page}

-- `struct ext2_file`
pub record File : Type 0 where
  pub f_inode : ℕ
  pub f_pos : ℕ
  pub f_flags : ℕ
  pub refcount : ℕ
  pub alloc : ℕ

-- `struct fdtable`, an entry of the table
pub record Fd : Type 0 where
  pub fds_index : ℕ
  pub busy : ℕ

pub record Files : Type 0 where
  pub kmem : Kmem
  pub fds : List File
  pub fdtable : List Fd

abbrev pub no_file : File
no_file = record { f_inode = 0; f_pos = 0; f_flags = 0; refcount = 0; alloc = 0 }

abbrev pub no_fd : Fd
no_fd = record { fds_index = 0; busy = 0 }

-- `fds[i]` and `proc->fdtable[fd]`
abbrev pub file : Files → ℕ → File
file t i = get_or t.fds i no_file

abbrev pub desc : Files → ℕ → Fd
desc t fd = get_or t.fdtable fd no_fd

abbrev pub set_file : Files → ℕ → File → Files
set_file t i f = record t { fds = set t.fds i f }

abbrev pub set_desc : Files → ℕ → Fd → Files
set_desc t fd d = record t { fdtable = set t.fdtable fd d }

-- The first index, from `i` on, whose element passes the test: the search loops of the file.
abbrev pub first_from {ℓ} : {A : Type ℓ} → (A → Bool) → ℕ → List A → Option ℕ
first_from test i [] = none
first_from test i (x ∷ xs) = if test x then some i else first_from test (suc i) xs

-- `memset(fds, 0, sizeof(fds))`, and a store for each of STDIN, STDOUT and STDERR.
unfoldable pub fs_init : Files → Files
fs_init t =
    let t₀ = record t { fds = replicate 256 no_file } in
    let t₁ = set_file t₀ 0 (record (file t₀ 0) { alloc = 1 }) in
    let t₂ = set_file t₁ 1 (record (file t₁ 1) { alloc = 1 }) in
    set_file t₂ 2 (record (file t₂ 2) { alloc = 1 })

-- An open standard descriptor.
abbrev pub std_fd : ℕ → Fd
std_fd i = record { fds_index = i; busy = 1 }

-- `fdtable_alloc`: a new page of zeros, read as 256 entries, and the stores to the three standard ones.
unfoldable pub fdtable_alloc : Kmem → Run (List Fd × Kmem)
fdtable_alloc k = do
  (page, k') ← zeroed_page k
  let result = replicate 256 no_fd
  done (set (set (set result 0 (std_fd 0)) 1 (std_fd 1)) 2 (std_fd 2), k')

-- `fd_to_fds`, as an index of `fds`
unfoldable pub fd_to_fds : Files → ℕ → Run ℕ
fd_to_fds t fd = if (desc t fd).busy == 0 then halted else done (desc t fd).fds_index

abbrev pub is_free_file : File → Bool
is_free_file f = f.alloc == 0

abbrev pub is_free_fd : Fd → Bool
is_free_fd d = d.busy == 0

unfoldable pub alloc_fds : Files → Run (ℕ × Files)
alloc_fds t = elim (first_from is_free_file 0 t.fds) [
  | some i ↦ done (i, set_file t i (record (file t i) { alloc = 1 }))
  | none ↦ halted
]

unfoldable pub free_fds : Files → ℕ → Run Files
free_fds t i =
    if (file t i).alloc == 1 then done (set_file t i (record (file t i) { alloc = 0 })) else halted

-- `sizeof(struct ext2_inode)`
abbrev pub inode_size : ℕ
inode_size = 128

-- `open`, once `ext2_path_lookup` has answered: where it left the inode, or that there is none.
unfoldable pub open_found : Files → (inode : Option ℕ) → (flags : ℕ) → Run (ℤ × Files)
open_found t none flags = done (negsuc 0, t)
open_found t (some inode) flags = elim (first_from is_free_fd 0 t.fdtable) [
  | some fd ↦ do
    (i, t₁) ← alloc_fds (set_desc t fd (record (desc t fd) { busy = 1 }))
    let t₂ = set_desc t₁ fd (record { fds_index = i; busy = 1 })
    (page, k) ← kmalloc t₂.kmem (pos inode_size)
    let t₃ = record t₂ { kmem = record k { mem = (memcpy k.mem page inode inode_size).0 } }
    done (
      pos fd,
      set_file t₃ i (record (file t₃ i) { f_inode = page; f_pos = 0; f_flags = flags % 2 ^ 32 }),
    )
  | none ↦ done (negsuc 0, t)
]

-- `fd_invaild`
unfoldable pub fd_invalid : Files → ℤ → Bool
fd_invalid t (negsuc n) = true
fd_invalid t (pos fd) = leb 256 fd || (desc t fd).busy == 0

-- `refcount += 1`, `refcount -= 1`
abbrev pub more_refs : Files → ℕ → Files
more_refs t i = set_file t i (record (file t i) { refcount = ((file t i).refcount + 1) % 2 ^ 32 })

abbrev pub fewer_refs : Files → ℕ → Files
fewer_refs t i =
    set_file t i (record (file t i) { refcount = ((file t i).refcount + 2 ^ 32 - 1) % 2 ^ 32 })

abbrev pub closed : Files → ℕ → Files
closed t fd = set_desc t fd (record (desc t fd) { busy = 0 })

-- `FILE_PIPE_FLAGS` is bit 3.
abbrev pub is_pipe : File → Bool
is_pipe f = (f.f_flags / 8) % 2 == 1

unfoldable pub close : Files → ℤ → Run (ℤ × Files)
close t (negsuc n) = done (negsuc 0, t)
close t (pos fd) = if fd_invalid t (pos fd) then done (negsuc 0, t) else do
  i ← fd_to_fds t fd
  let t₁ = fewer_refs t i
  t₂ ←
      if (file t₁ i).refcount == 0
      then (if is_pipe (file t₁ i) then done t₁ else free_fds t₁ i)
      else done t₁
  done (pos 0, closed t₂ fd)

unfoldable pub close_fd : Files → ℤ → Run (ℤ × Files)
close_fd t (negsuc n) = done (negsuc 0, t)
close_fd t (pos fd) = if fd_invalid t (pos fd) then done (negsuc 0, t) else do
  i ← fd_to_fds t fd
  let t₁ = fewer_refs t i
  t₂ ← if (file t₁ i).refcount == 0 then free_fds t₁ i else done t₁
  done (pos 0, closed t₂ fd)

-- The `n` bytes from `a` on.
abbrev pub bytes_from : Mem → (a n : ℕ) → List ℕ
bytes_from m a zero = []
bytes_from m a (suc n) = m a ∷ bytes_from m (a + 1) n

-- The answer and the bytes sent to the console.
unfoldable pub write : Files → ℤ → (buf count : ℕ) → Run (ℤ × List ℕ)
write t (negsuc n) buf count = done (negsuc 0, [])
write t (pos fd) buf count = if fd_invalid t (pos fd) then done (negsuc 0, []) else do
  i ← fd_to_fds t fd
  if i == 1 || i == 2 then done (pos count, bytes_from t.kmem.mem buf count) else done (pos 0, [])

-- `fcntl` with a further argument that is not negative; F_DUPFD is 0, F_GETFD 1, F_SETFD 2, and the
-- commands 3 to 7 answer 0.
unfoldable pub fcntl : Files → ℤ → (cmd arg : ℕ) → Run (ℤ × Files)
fcntl t (negsuc n) cmd arg = done (negsuc 0, t)
fcntl t (pos fd) cmd arg =
    if fd_invalid t (pos fd)
    then done (negsuc 0, t)
    else if cmd == 0
    then elim (first_from is_free_fd arg (drop arg t.fdtable)) [
      | some i ↦ done (pos i, set_desc t i (desc t fd))
      | none ↦ done (negsuc 0, t)
    ]
    else if cmd == 1
    then done (pos (desc t fd).busy, t)
    else if cmd == 2
    then done (pos 0, set_desc t fd (record (desc t fd) { busy = arg }))
    else if leb cmd 7
    then done (pos 0, t)
    else done (negsuc 0, t)

unfoldable pub dup : Files → ℤ → Run (ℤ × Files)
dup t (negsuc n) = halted
dup t (pos oldfd) =
    if fd_invalid t (pos oldfd) then halted else elim (first_from is_free_fd 0 t.fdtable) [
      | some i ↦ do
        let t₁ = set_desc t i (record { fds_index = (desc t oldfd).fds_index; busy = 1 })
        f ← fd_to_fds t₁ oldfd
        done (pos i, more_refs t₁ f)
      | none ↦ done (negsuc 0, t)
    ]

-- `O_CLOEXEC` is bit 19. The first argument and the new descriptor are indices of the table.
unfoldable pub dup3 : Files → (oldfd newfd flags : ℕ) → Run (ℤ × Files)
dup3 t oldfd newfd flags =
    if oldfd == newfd then done (pos newfd, t) else if fd_invalid t (pos oldfd) then halted else do
      (_, t₁) ← if (desc t newfd).busy == 1 then close t (pos newfd) else done (pos 0, t)
      let t₂ = set_desc t₁ newfd (record { fds_index = (desc t₁ oldfd).fds_index; busy = 1 })
      f ← fd_to_fds t₂ oldfd
      let t₃ = more_refs t₂ f
      if (flags / 2 ^ 19) % 2 == 0 then done (pos newfd, t₃) else do
        (now, t₄) ← fcntl t₃ (pos newfd) 1 0
        elim now [
          | negsuc n ↦ done (negsuc 0, t₄)
          | pos busy ↦ do
            (ok, t₅) ← fcntl t₄ (pos newfd) 2 (bit_or busy 1)
            elim ok [ negsuc n ↦ done (negsuc 0, t₅) | pos n ↦ done (pos newfd, t₅) ]
        ]

-- `fdtable_copy`: the table itself is copied as it is; each of its open descriptors is one more
-- reference.
abbrev pub add_refs : List File → List Fd → List File
add_refs fs [] = fs
add_refs fs (d ∷ ds) =
    let f = get_or fs d.fds_index no_file in
    if d.busy == 1
    then add_refs (set fs d.fds_index (record f { refcount = (f.refcount + 1) % 2 ^ 32 })) ds
    else add_refs fs ds

unfoldable pub fdtable_copy : Files → Run (List Fd × Files)
fdtable_copy t = do
  (page, k) ← kmalloc t.kmem (pos 16384)
  done (t.fdtable, record t { kmem = k; fds = add_refs t.fds t.fdtable })
