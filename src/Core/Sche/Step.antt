-- ===== src/Core/Sche/Step.antt =====
-- The scheduler and its tasks as a machine: the loop steps while no task goes on, and a task that goes on
-- yields (the timer interrupt does so too), exits, kills a task, starts a new one (`exec`, `fork`) or takes up a zombie
-- (`sys_wait4`).

use loos_lab.Base.{ℕ, ◌<◌, ◌≡◌, Bool, true, false}
use loos_lab.Core.Sche.{
  Place, Sched, task, is_zombie, scheduler_step, yield, kill, start_task, reap, exit, scanning,
  inside, stopped,
}

abbrev pub is_inside : Place → Bool
is_inside (scanning i run) = false
is_inside (inside i run) = true
is_inside stopped = false

pub data Step : Sched → Sched → Type 0 where
  loop : (s : Sched) → is_inside s.place ≡ false → Step s (scheduler_step s)
  yields : (s : Sched) → is_inside s.place ≡ true → Step s (yield s)
  exits : (s : Sched) (code : ℕ) → is_inside s.place ≡ true → Step s (exit s code)
  starts :
      (s : Sched) (i pid : ℕ)
      → i < 64
      → (task s i).used ≡ false
      → is_inside s.place ≡ true
      → Step s (start_task s i pid)
  reaps :
      (s : Sched) (i : ℕ)
      → i < 64
      → is_zombie (task s i).state ≡ true
      → is_inside s.place ≡ true
      → Step s (reap s i)
  kills : (s : Sched) (p : ℕ) → p < 64 → is_inside s.place ≡ true → Step s (kill s p)

pub data Steps : Sched → Sched → Type 0 where
  here : (s : Sched) → Steps s s
  next : (s s' s'' : Sched) → Steps s s' → Step s' s'' → Steps s s''
