-- ===== src/Core/Syscall/Tests.antt =====
-- Concrete runs of core/syscall.c.

use loos_lab.Core.Syscall.Chdir.{dots_text, new_dir, Places, Kept, sys_chdir-new_dir}
use loos_lab.Core.Syscall.Back.{sys_chdir-back}
use loos_lab.Base.{ℕ, ◌≡◌, refl, inl, some, List, [], ◌∷◌, arith, ◌==◌, if◌then◌else◌, get_or}
use loos_lab.Base.Run.{out_of_fuel}
use loos_lab.Memory.{Mem, CStr}
use loos_lab.Fs.Ext2.Tests.{machine, fs}
use loos_lab.Fs.Read.Tests.{opened, opened_valid}
use loos_lab.Fs.Read.{inode_at}
use loos_lab.Core.Syscall.{sys_sendfile, sys_chdir}
use loos_lab.Core.Syscall.Sendfile.{sys_sendfile_stuck}
use loos_lab.Core.Syscall.Path.{slash_text, full_path}

sys_sendfile_stuck_example : sys_sendfile 1000 2 machine fs (λ n. []) opened 1 3 0 100 ≡ out_of_fuel
unfolding inode_at
sys_sendfile_stuck_example =
    sys_sendfile_stuck 1000 machine fs (λ n. []) opened 1 3 100 3 20480 refl (omega arith)
      opened_valid refl (omega arith) refl (omega arith) (inl (omega arith))

-- "/d" at address 1, "f" at address 4, "/" at address 6
abbrev names : Mem
names a = get_or (0 ∷ 47 ∷ 100 ∷ 0 ∷ 102 ∷ 0 ∷ 47 ∷ []) a 0

abbrev dir : List ℕ
dir = 47 ∷ 100 ∷ []

-- ".." at address 1, "/" at 4, "f" at 6, and the current directory "/d" at 3000
abbrev shell : Mem
shell a =
    if a == 3000
    then 47
    else if a == 3001
    then 100
    else get_or (0 ∷ 46 ∷ 46 ∷ 0 ∷ 47 ∷ 0 ∷ 102 ∷ 0 ∷ []) a 0

shell-Places : Places 6 1000 2000 3000 1 4
shell-Places = record {
  path_newpath = inl (omega arith);
  path_cwd = inl (omega arith);
  newpath_cwd = inl (omega arith);
  addr_path = inl (omega arith);
  dots_path = inl (omega arith);
  dots_newpath = inl (omega arith);
  dots_cwd = inl (omega arith);
  slash_path = inl (omega arith);
  slash_newpath = inl (omega arith);
  slash_cwd = inl (omega arith);
}

at_dir : CStr shell 3000 dir
at_dir = (refl, omega arith, (refl, omega arith, refl))

at_file : CStr shell 6 (102 ∷ [])
at_file = (refl, omega arith, refl)

at_parent : CStr shell 1 dots_text
at_parent = (refl, omega arith, (refl, omega arith, refl))

at_root : CStr shell 4 slash_text
at_root = (refl, omega arith, refl)

sys_chdir-new_dir_example :
    (m' : Mem) × (sys_chdir 257 shell 6 1000 2000 3000 1 4 ≡ some m')
    × CStr m' 3000 (new_dir dir (102 ∷ []))
    × Kept shell m' 1000 2000 3000
sys_chdir-new_dir_example =
    sys_chdir-new_dir 257 shell 6 1000 2000 3000 1 4 dir (102 ∷ []) shell-Places at_dir at_file
      at_parent at_root (omega arith, (omega arith, tt)) (omega arith, tt) (omega arith)
      (omega arith)

sys_chdir-back_example :
    (m' m'' : Mem) × (sys_chdir 257 shell 6 1000 2000 3000 1 4 ≡ some m')
    × CStr m' 3000 (full_path dir (102 ∷ []))
    × (sys_chdir 257 m' 1 1000 2000 3000 1 4 ≡ some m'')
    × CStr m'' 3000 dir
sys_chdir-back_example =
    sys_chdir-back 257 shell 6 1 1000 2000 3000 1 4 dir (102 ∷ []) shell-Places at_dir at_file
      at_parent at_parent at_root (omega arith, (omega arith, tt)) (omega arith, tt) (omega arith)
      refl refl (omega arith) (omega arith) (inl (omega arith)) (inl (omega arith))
      (inl (omega arith))
