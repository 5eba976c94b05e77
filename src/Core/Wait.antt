-- ===== src/Core/Wait.antt =====
-- `sys_wait4` of core/syscall.c, on the tasks of core/proc.c. A `struct rusage` comes from a header that is not part of
-- the repository: its layout is a parameter.
pub mod Any
pub mod Tests
use loos_lab.Base.{
  ℕ, zero, suc, ◌+◌, ◌-◌, ◌*◌, ◌%◌, ◌^◌, Bool, true, false, ◌||◌, Option, none, some, List, [], ◌∷◌,
  ◌==◌, if◌then◌else◌, get_or, set,
}
use loos_lab.Base.Int.{sign_extend}
use loos_lab.Base.Run.{Run, ◌>>=◌, done, halted, out_of_fuel}
use loos_lab.Memory.{Mem}
use loos_lab.Memory.Words.{put64}
use loos_lab.Libc.Block.{memset}
use loos_lab.Core.Sche.{Task, no_task, is_running, is_runable, is_zombie, find_task, task_killed}

-- What the call reads of the table: the tasks, the parent of each, and the list of the caller's children in order.
pub record Family : Type 0 where
  pub proc : List Task
  pub parent : List ℕ
  pub children : List ℕ

pub record RusageLayout : Type 0 where
  pub size : ℕ
  pub ru_utime : ℕ
  pub ru_stime : ℕ

abbrev pub member : Family → ℕ → Task
member t i = get_or (Family.proc t) i no_task

-- The loop over the children: the first zombie, or whether one of them still runs.
unfoldable pub find_zombie : Family → (children : List ℕ) → (runnings : Bool) → Option ℕ × Bool
find_zombie t [] runnings = (none, runnings)
find_zombie t (i ∷ is) runnings =
    let st = (member t i).state in
    let rest = find_zombie t is (runnings || (is_running st || is_runable st)) in
    if is_zombie st then (some i, runnings) else rest

-- What follows the loop: `goto find_proc_sat`, `return -1`, or another cycle.
unfoldable pub after_scan :
    Option ℕ × Bool → Family → Run (Option ℕ × Family) → Run (Option ℕ × Family)
after_scan (some i, runnings) t again = done (some i, t)
after_scan (none, true) t again = again
after_scan (none, false) t again = done (none, t)

-- `cycle_start`: what the other tasks do during the `k`-th `yield` is `yields k`.
unfoldable pub wait_any :
    (fuel : ℕ) → (yields : ℕ → Family → Family) → (k : ℕ) → Family → Run (Option ℕ × Family)
unfolding find_zombie after_scan
wait_any zero yields k t = out_of_fuel
wait_any (suc n) yields k t =
    let again = wait_any n yields (k + 1) (yields k t) in
    after_scan (find_zombie t (Family.children t) false) t again

-- `while (pos->state != TASK_ZOMBIE) yield();`
unfoldable pub wait_one :
    (fuel : ℕ) → (yields : ℕ → Family → Family) → (k i : ℕ) → Family → Run Family
wait_one zero yields k i t = out_of_fuel
wait_one (suc n) yields k i t =
    let again = wait_one n yields (k + 1) i (yields k t) in
    if is_zombie (member t i).state then done t else again

-- `if (rusage) { ... }`
unfoldable pub put_rusage : RusageLayout → Mem → (rusage : ℕ) → Mem
unfolding memset
put_rusage l m rusage =
    let m' = (memset m rusage 0 (RusageLayout.size l)).0 in
    if rusage == 0
    then m
    else put64 (put64 m' (rusage + RusageLayout.ru_stime l) 1) (rusage + RusageLayout.ru_utime l) 1

-- `*(uint64_t *) wstatus = pos->exit_code << 8`
unfoldable pub put_status : Mem → (wstatus exit_code : ℕ) → Mem
put_status m wstatus exit_code =
    if wstatus == 0 then m else put64 m wstatus (sign_extend (exit_code * 256))

-- From `find_proc_sat` on, for the task at index `i`: the answer, the memory and the table.
unfoldable pub collect : RusageLayout → Mem → Family → (i wstatus rusage : ℕ) → ℕ × Mem × Family
unfolding put_rusage put_status
collect l m t i wstatus rusage = (
  sign_extend (member t i).pid,
  put_status (put_rusage l m rusage) wstatus (member t i).exit_code,
  record t { proc = set (Family.proc t) i (record (member t i) { state = task_killed }) },
)

-- `me` is the index of the caller; `m` is the memory when it goes on after its last `yield`. Without a task of that number the code goes on with NULL and reads its state.
unfoldable pub sys_wait4 :
    (fuel : ℕ)
    → RusageLayout
    → (yields : ℕ → Family → Family) → Mem
    → Family
    → (me pid wstatus rusage : ℕ) → Run (ℕ × Mem × Family)
unfolding wait_any wait_one collect
sys_wait4 fuel l yields m t me pid wstatus rusage =
    if pid == 2 ^ 64 - 1
    then (do
      (found, t') ← wait_any fuel yields 0 t
      elim found [
        | none ↦ done (2 ^ 64 - 1, m, t')
        | some i ↦ done (collect l m t' i wstatus rusage)
      ])
    else elim (find_task 0 (Family.proc t) (pid % 2 ^ 32)) [
      | none ↦ halted
      | some i ↦
          (if get_or (Family.parent t) i 0 == me
            then (do t' ← wait_one fuel yields 0 i t; done (collect l m t' i wstatus rusage))
            else done (2 ^ 64 - 1, m, t))
    ]
