-- ===== src/Core/Wait/Tests.antt =====
-- `sys_wait4` of core/syscall.c on a small family.
use loos_lab.Base.{ℕ, zero, suc, ◌-◌, ◌*◌, ◌^◌, ◌<◌, ◌≡◌, refl, ◌≢◌, true, [], ◌∷◌, arith}
use loos_lab.Base.Int.{sign_extend}
use loos_lab.Base.Run.{done}
use loos_lab.Memory.{Mem}
use loos_lab.Memory.Words.{get64}
use loos_lab.Core.Sche.{ProcState, Task, task_running, task_runable, task_zombie, task_killed}
use loos_lab.Core.Wait.{Family, RusageLayout, member, sys_wait4}
use loos_lab.Core.Wait.Any.{later, Waits, sys_wait4-first_zombie, sys_wait4-no_child}

abbrev with_state : (pid : ℕ) → ProcState → Task
with_state pid st = record { pid = pid; state = st; used = true; exit_code = 3 }

-- The kernel task, the caller and its child.
abbrev family : ProcState → Family
family st = record {
  proc = with_state 0 task_running ∷ with_state 1 task_running ∷ with_state 2 st ∷ [];
  parent = 0 ∷ 0 ∷ 1 ∷ [];
  children = 2 ∷ [];
}

-- During the first `yield` the child exits.
abbrev child_exits : ℕ → Family → Family
child_exits k t = family task_zombie

abbrev layout : RusageLayout
layout = record { size = 144; ru_utime = 0; ru_stime = 16 }

one_wait : (q : ℕ) → q < 1 → Waits (later child_exits 0 (family task_runable) q)
one_wait zero h = ((refl, tt), refl)
one_wait (suc q) h = absurd (omega arith)

sys_wait4-first_zombie_example :
    (m' : Mem) × (t' : Family) × (sys_wait4 2 layout child_exits
        (λ x. 0)
        (family task_runable)
        1
        (2 ^ 64 - 1)
        100
        0
      ≡ done (sign_extend 2, m', t'))
    × (get64 m' 100 ≡ sign_extend (3 * 256))
    × ((member t' 2).state ≡ task_killed)
    × ((j : ℕ) → j ≢ 2 → member t' j ≡ member (family task_zombie) j)
sys_wait4-first_zombie_example =
    sys_wait4-first_zombie 2 1 layout child_exits (λ x. 0) (family task_runable) 1 100 0
      (omega arith) one_wait [] 2 [] refl tt refl (omega arith) (λ e. omega arith)

sys_wait4-no_child_example :
    sys_wait4 2 layout child_exits (λ x. 0) (family task_killed) 1 (2 ^ 64 - 1) 100 0
    ≡ done (2 ^ 64 - 1, λ x. 0, family task_killed)
sys_wait4-no_child_example =
    sys_wait4-no_child 2 0 layout child_exits (λ x. 0) (family task_killed) 1 100 0 (omega arith)
      (λ q h. absurd (omega arith)) (refl, tt) refl
