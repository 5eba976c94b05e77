-- ===== src/Core/Tests.antt =====
-- Concrete runs of the scheduler.

use mathlib.Core.Path.{subst}
use loos_lab.Base.{
  ℕ, zero, suc, ◌-◌, ◌≤◌, ◌<◌, ◌≡◌, refl, true, false, ◌∷◌, arith, ltb, replicate, get_or-replicate,
}
use loos_lab.Core.Sche.{
  Task, Sched, no_task, task, eligible, scheduler_step, task_running, task_runable, scanning,
  stopped,
}
use loos_lab.Core.Sche.Step.{Step, Steps, loop, here, next}
use loos_lab.Core.Sche.Stopped.{stopped_lem}
use loos_lab.Core.Sche.Fair.{scan, Switched, scan-Switched}

abbrev kernel_task : Task
kernel_task = record { pid = 0; state = task_running; used = true; exit_code = 0 }

abbrev user_task : ℕ → Task
user_task pid = record { pid = pid; state = task_runable; used = true; exit_code = 0 }

-- The kernel task and two runnable tasks.
abbrev start : Sched
start = record {
  proc = kernel_task ∷ user_task 1 ∷ user_task 2 ∷ replicate 61 no_task;
  cur_proc = 0;
  place = scanning 0 false;
}

abbrev taken : Sched
taken = scheduler_step (scheduler_step start)

scan-Switched_example : Switched start (scan (suc (1 - 0)) start) 1
scan-Switched_example =
    scan-Switched start 0 1 false refl refl (omega arith) (omega arith) refl
      (λ j lo hi. rw (first j hi) refl)
  where
    first : (j : ℕ) → j < 1 → j ≡ 0
    first j hi = omega arith

-- Only the kernel task is there.
abbrev quiet : ℕ → Sched
quiet i = record {
  proc = kernel_task ∷ replicate 63 no_task;
  cur_proc = 0;
  place = scanning i false;
}

nothing_to_take : (i : ℕ) → eligible (task (quiet 0) i) ≡ false
nothing_to_take zero = refl
nothing_to_take (suc i) = ground (arith, get_or-replicate 63 i no_task)

quiet-Steps : (i : ℕ) → i ≤ 64 → Steps (quiet 0) (quiet i)
unfolding scheduler_step
quiet-Steps zero h = here (quiet 0)
quiet-Steps (suc i) h =
    let more : ltb i 64 ≡ true = ground arith in
    let eq : scheduler_step (quiet i) ≡ quiet (suc i) = rw (more, nothing_to_take i) refl in
    next (quiet 0) (quiet i) (quiet (suc i)) (quiet-Steps i (omega arith))
      (subst (λ (s : Sched). Step (quiet i) s) eq (loop (quiet i) refl))

abbrev halted_machine : Sched
halted_machine = scheduler_step (quiet 64)

halted_machine-Steps : Steps (quiet 0) halted_machine
halted_machine-Steps =
    next (quiet 0) (quiet 64) halted_machine (quiet-Steps 64 (omega arith)) (loop (quiet 64) refl)

halted_machine-stopped : halted_machine.place ≡ stopped
unfolding scheduler_step
halted_machine-stopped = refl

stopped_lem_example : eligible (task halted_machine 1) ≡ false
stopped_lem_example =
    stopped_lem (quiet 0) halted_machine refl halted_machine-Steps halted_machine-stopped 1
      (omega arith)
