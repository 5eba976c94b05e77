-- ===== src/Core/Syscall.antt =====
-- core/syscall.c: the calls that do more than pass their arguments on to fs/ext2_fs.c. An argument register is an
-- argument of the definition.
pub mod Sendfile
pub mod Path
pub mod Parent
pub mod Chdir
pub mod Back
pub mod Tests
use loos_lab.Libc.Block.{memcpy}
use loos_lab.Base.{
  ℕ, zero, suc, ◌+◌, ◌*◌, ◌/◌, ◌%◌, ◌^◌, Option, none, some, List, [], ◌++◌, ◌==◌, if◌then◌else◌,
}
use loos_lab.Base.Int.{ℤ}
use loos_lab.Base.Run.{Run, ◌>>=◌, done, halted, out_of_fuel}
use loos_lab.Memory.{Mem, put}
use loos_lab.Libc.Str.{strlen, strcpy, strcat, strcmp}
use loos_lab.Libc.Stdio.{int_of}
use loos_lab.Fs.Files.{Files, write}
use loos_lab.Fs.Ext2.{Ext2Fs, Machine}
use loos_lab.Fs.Ext2.Dir.{is_zero}
use loos_lab.Fs.Read.{read}

-- The loop of `sys_sendfile`, over the rounds left: `total_len`, the bytes sent to the console, and the files.
-- `reads` says what the console gives in each round.
unfoldable pub sendfile_loop :
    (rounds fuel : ℕ)
    → Machine
    → Ext2Fs
    → (reads : ℕ → List (ℕ × ℕ)) → Files
    → (out_fd in_fd : ℤ) → (buf total_len : ℕ) → (sent : List ℕ) → Run (ℕ × List ℕ × Files)
unfolding read write
sendfile_loop zero fuel m e2fs reads t out_fd in_fd buf total_len sent = out_of_fuel
sendfile_loop (suc n) fuel m e2fs reads t out_fd in_fd buf total_len sent =
    let again : Files → ℕ → List ℕ → Run (ℕ × List ℕ × Files) =
      λ t' total more. sendfile_loop n fuel m e2fs reads t' out_fd in_fd buf total (sent ++ more) in
    do
      (this_len, t') ← read fuel m e2fs (reads n) t in_fd buf 1
      if this_len == 0 then done (total_len, sent, t') else do
        (ret, more) ← write t' out_fd buf this_len
        again t' ((total_len + this_len) % 2 ^ 64) more

unfoldable pub sys_sendfile :
    (rounds fuel : ℕ)
    → Machine
    → Ext2Fs
    → (reads : ℕ → List (ℕ × ℕ)) → Files
    → (out_fd in_fd offset buf : ℕ) → Run (ℕ × List ℕ × Files)
unfolding sendfile_loop
sys_sendfile rounds fuel m e2fs reads t out_fd in_fd offset buf =
    if offset == 0
    then sendfile_loop rounds fuel m e2fs reads t (int_of out_fd) (int_of in_fd) buf 0 []
    else halted

-- `get_path`; the literal "/" stands at `slash`.
unfoldable pub get_path : (fuel : ℕ) → Mem → (cwd buf ref_path slash : ℕ) → Option Mem
unfolding strcpy strcat strcmp
get_path fuel m cwd buf ref_path slash =
    if m ref_path == b'/' then strcpy fuel m buf ref_path else elim (strcpy fuel m buf cwd) [
      | none ↦ none
      | some m₁ ↦
          elim (if is_zero (strcmp m₁ cwd slash) then some m₁ else strcat fuel m₁ buf slash) [
            | none ↦ none
            | some m₂ ↦ strcat fuel m₂ buf ref_path
          ]
    ]

-- `for (i = n; i > 0; i--)` of `sys_chdir`: where it ends, and the memory.
unfoldable pub cut_slash : Mem → (newpath n : ℕ) → ℕ × Mem
cut_slash m newpath zero = (0, m)
cut_slash m newpath (suc i) =
    let rest = cut_slash m newpath i in
    if m (newpath + suc i) == b'/' then (suc i, put m (newpath + suc i) 0) else rest

-- The branch of `sys_chdir` for "..".
unfoldable pub chdir_up : (fuel : ℕ) → Mem → (newpath cwd slash : ℕ) → Option Mem
unfolding strcpy strlen cut_slash
chdir_up fuel m newpath cwd slash = elim (strcpy fuel m newpath cwd) [
  | none ↦ none
  | some m₁ ↦ elim (strlen fuel m₁ cwd) [
    | none ↦ none
    | some n ↦
        let (i, m₂) = cut_slash m₁ newpath n in
        if i == 0 then strcpy fuel m₂ newpath slash else some m₂
  ]
]

-- `argstr(n, buf, max)`, with the address that the register holds.
unfoldable pub argstr : Mem → (buf addr max : ℕ) → Mem
argstr m buf addr max = (memcpy m buf addr max).0

-- `newpath` of `sys_chdir`, a copy in `p->cwd`. The statements of the second and the third branch are those of
-- `get_path`.
unfoldable pub chdir_to : (fuel : ℕ) → Mem → (path newpath cwd dots slash : ℕ) → Option Mem
unfolding strcmp chdir_up get_path strcpy
chdir_to fuel m path newpath cwd dots slash =
    elim (if is_zero (strcmp m path dots)
      then chdir_up fuel m newpath cwd slash
      else get_path fuel m cwd newpath path slash) [
        | none ↦ none
        | some m' ↦ strcpy fuel m' cwd newpath
      ]

-- `sys_chdir`: `path` and `newpath` are its arrays of 256 bytes, and the literals ".." and "/" stand at `dots` and
-- `slash`. `argstr` copies 256 bytes, whatever they are.
unfoldable pub sys_chdir : (fuel : ℕ) → Mem → (addr path newpath cwd dots slash : ℕ) → Option Mem
unfolding chdir_to
sys_chdir fuel m addr path newpath cwd dots slash =
    chdir_to fuel (argstr m path addr 256) path newpath cwd dots slash

-- `sys_brk`: the answer, and `p->bss`.
unfoldable pub sys_brk : (bss addr : ℕ) → Run (ℕ × ℕ)
sys_brk bss addr =
    if bss == 0 then halted else if addr == 0 then done (bss, bss) else done (addr, addr)

-- `get_ns` and `get_tick_by_ms`
unfoldable pub get_ns : (tick : ℕ) → ℕ
get_ns tick = tick * 1000 * 2 % 2 ^ 64

unfoldable pub get_tick_by_ms : (ms : ℕ) → ℕ
get_tick_by_ms ms = ms / 2
