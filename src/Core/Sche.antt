-- ===== src/Core/Sche.antt =====
-- core/sche.c and the task states of core/proc.c. `swtch` saves one context and continues another; here the
-- place says who goes on: the scheduler, at an index of its loop, or the task it switched to.
pub mod Step
pub mod Exclusive
pub mod Leave
pub mod Stopped
pub mod Fair
use loos_lab.Base.{
  ℕ, suc, Bool, true, false, not, ◌&&◌, Option, none, some, List, [], ◌∷◌, ltb, ◌==◌, if◌then◌else◌,
  get_or, set,
}

-- `enum proc_state`
pub data ProcState : Type 0 where
  task_running : ProcState
  task_runable : ProcState
  task_zombie : ProcState
  task_killed : ProcState

-- The fields of `struct task_struct` that scheduling reads; `used` is `allocs == USED`.
pub record Task : Type 0 where
  pub pid : ℕ
  pub state : ProcState
  pub used : Bool
  pub exit_code : ℕ

-- `scanning i run`: in the loop of `scheduler`, before the test of task `i`. `inside i run`: task `i`
-- goes on, the loop waits for it. `stopped`: behind the loop, `shutdown()` was called.
pub data Place : Type 0 where
  scanning : ℕ → Bool → Place
  inside : ℕ → Bool → Place
  stopped : Place

-- `proc` has PROC_MAX = 64 entries; `cur_proc` is an index of it.
pub record Sched : Type 0 where
  pub proc : List Task
  pub cur_proc : ℕ
  pub place : Place

abbrev pub no_task : Task
no_task = record { pid = 0; state = task_running; used = false; exit_code = 0 }

abbrev pub task : Sched → ℕ → Task
task s i = get_or s.proc i no_task

abbrev pub is_running : ProcState → Bool
is_running task_running = true
is_running task_runable = false
is_running task_zombie = false
is_running task_killed = false

abbrev pub is_runable : ProcState → Bool
is_runable task_running = false
is_runable task_runable = true
is_runable task_zombie = false
is_runable task_killed = false

abbrev pub is_zombie : ProcState → Bool
is_zombie task_running = false
is_zombie task_runable = false
is_zombie task_zombie = true
is_zombie task_killed = false

abbrev pub set_state : Sched → ℕ → ProcState → Sched
set_state s i st = record s { proc = set s.proc i (record (task s i) { state = st }) }

-- `proc_find`: the first used entry with the pid.
abbrev pub find_task : ℕ → List Task → ℕ → Option ℕ
find_task i [] pid = none
find_task i (p ∷ ps) pid = if p.used && p.pid == pid then some i else find_task (suc i) ps pid

unfoldable pub proc_find : Sched → ℕ → Option ℕ
proc_find s pid = find_task 0 s.proc pid

-- `switch_to(kproc, &proc[i])`, with the change of states before it
unfoldable pub dispatch : Sched → ℕ → Sched
dispatch s i = record (set_state (set_state s 0 task_runable) i task_running) {
  cur_proc = i;
  place = inside i true;
}

-- The test that lets the loop take a task: used, not the kernel task, runnable.
abbrev pub eligible : Task → Bool
eligible p = p.used && not (p.pid == 0) && is_runable p.state

-- A step of the loops of `scheduler`: a task is taken or passed over, or the round ends.
unfoldable pub scheduler_step : Sched → Sched
scheduler_step s = elim s.place [
  | scanning i run ↦
      if ltb i 64
      then (if eligible (task s i) then dispatch s i else record s { place = scanning (suc i) run })
      else record s { place = if run then scanning 0 false else stopped }
  | inside i run ↦ s
  | stopped ↦ s
]

-- `swtch(p->context, kproc->context)`: the loop goes on behind the task it had switched to.
abbrev pub back_to_scheduler : Place → Place
back_to_scheduler (scanning i run) = scanning i run
back_to_scheduler (inside i run) = scanning (suc i) run
back_to_scheduler stopped = stopped

-- `yield`, called by the current task
unfoldable pub yield : Sched → Sched
yield s =
    let s₁ =
      if is_running (task s s.cur_proc).state then set_state s s.cur_proc task_runable else s in
    let s₂ = set_state s₁ 0 task_running in record s₂ { place = back_to_scheduler s₂.place }

unfoldable pub kill : Sched → ℕ → Sched
unfolding yield
kill s p = let s₁ = set_state s p task_zombie in if p == s.cur_proc then yield s₁ else s₁

-- `exec` and `fork` of core/exec.c: the entry that `proc_alloc` took is made TASK_RUNABLE.
unfoldable pub start_task : Sched → (i pid : ℕ) → Sched
start_task s i pid = record s {
  proc = set s.proc i (record (task s i) { pid = pid; state = task_runable; used = true });
}

-- The end of `sys_wait4`: the zombie that was waited for.
unfoldable pub reap : Sched → ℕ → Sched
reap s i = set_state s i task_killed

unfoldable pub exit : Sched → ℕ → Sched
unfolding kill
exit s code =
    let p = s.cur_proc in
    kill (record s { proc = set s.proc p (record (task s p) { exit_code = code }) }) p
