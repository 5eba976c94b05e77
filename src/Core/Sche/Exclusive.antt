-- ===== src/Core/Sche/Exclusive.antt =====
-- Which task is TASK_RUNNING: the invariant, and the steps of the loop.

use mathlib.Core.Path.{subst}
use loos_lab.Base.{
  ℕ, zero, suc, ◌≤◌, ◌<◌, ◌≡◌, refl, sym, ◌∙◌, ◌≢◌, inl, inr, Bool, true, false, List, [], ◌∷◌,
  arith, ltb, ◌==◌, if◌then◌else◌, Bool-cases, length, get_or, length-set, get_or-set,
}
use loos_lab.Core.Sche.{
  ProcState, Task, Place, Sched, no_task, task, is_running, set_state, dispatch, eligible,
  scheduler_step, task_running, task_runable, scanning, inside, stopped,
}
use loos_lab.Core.Sche.Step.{is_inside}

-- The task that goes on; while the loop runs this is the kernel task, number 0.
abbrev pub active : Place → ℕ
active (scanning i run) = 0
active (inside i run) = i
active stopped = 0

-- What holds of the place: a task that goes on is the current one, in use, and not the kernel task.
abbrev pub Placed : Sched → Place → Type 0
Placed s (scanning i run) = Unit
Placed s (inside i run) =
    (i ≡ s.cur_proc) × (1 ≤ i) × (i < 64) × ((task s i).used ≡ true) × (run ≡ true)
Placed s stopped = Unit

-- Of the tasks in use exactly the active one is TASK_RUNNING.
pub record IsSched (s : Sched) : Type 0 where
  pub size : length s.proc ≡ 64
  pub kernel : ((task s 0).pid ≡ 0) × ((task s 0).used ≡ true)
  pub placed : Placed s s.place
  pub exclusive :
      (j : ℕ) → (task s j).used ≡ true → is_running (task s j).state ≡ (j == active s.place)

pub task-set_state :
    (s : Sched) (i j : ℕ) (st : ProcState)
    → length s.proc ≡ 64
    → i < 64
    → task (set_state s i st) j ≡ (if j == i then record (task s i) { state = st } else task s j)
task-set_state s i j st size h =
    get_or-set s.proc i j (record (task s i) { state = st }) no_task (omega (arith, size))

task_range : (xs : List Task) (i : ℕ) → (get_or xs i no_task).used ≡ true → i < length xs
task_range [] i h = ground arith
task_range (x ∷ xs) zero h = omega arith
task_range (x ∷ xs) (suc i) h = omega (arith, task_range xs i h)

dispatch-IsSched :
    (s : Sched) (i : ℕ) (run : Bool)
    → IsSched s
    → s.place ≡ scanning i run
    → i < 64
    → eligible (task s i) ≡ true
    → IsSched (dispatch s i)
unfolding dispatch
dispatch-IsSched s i run is at hi ok =
    let s₁ = set_state s 0 task_runable in
    let size₁ = length-set s.proc 0 (record (task s 0) { state = task_runable }) ∙ is.size in
    let ne : i ≢ 0 = λ e. ground (arith, is.kernel) in
    let size₂ = length-set s₁.proc i (record (task s₁ i) { state = task_running }) ∙ size₁ in
    record {
      size = size₂;
      kernel = ground (
        arith,
        is.kernel,
        task-set_state s₁ i 0 task_running size₁ hi,
        task-set_state s 0 0 task_runable is.size (omega arith),
      );
      placed = (
        refl,
        omega (arith, ne),
        hi,
        ground (
          arith,
          task-set_state s₁ i i task_running size₁ hi,
          task-set_state s 0 i task_runable is.size (omega arith),
        ),
        refl,
      );
      exclusive = λ j used. ground (
        arith,
        is.exclusive j,
        task-set_state s₁ i j task_running size₁ hi,
        task-set_state s 0 j task_runable is.size (omega arith),
        at,
      );
    }

-- While no task goes on, the loop may stand anywhere.
moved :
    (s : Sched) (place : Place)
    → IsSched s
    → is_inside s.place ≡ false
    → is_inside place ≡ false
    → IsSched (record s { place = place })
moved s place is out out' = record {
  size = is.size;
  kernel = is.kernel;
  placed = anywhere place out';
  exclusive = λ j used.
      ground (arith, is.exclusive j used, kernel_active place out', kernel_active s.place out);
}
  where
    anywhere : (p : Place) → is_inside p ≡ false → Placed (record s { place = place }) p
    anywhere (scanning i run) h = tt
    anywhere (inside i run) h = absurd (ground arith)
    anywhere stopped h = tt

    kernel_active : (p : Place) → is_inside p ≡ false → active p ≡ 0
    kernel_active (scanning i run) h = refl
    kernel_active (inside i run) h = absurd (ground arith)
    kernel_active stopped h = refl

pub scheduler_step-IsSched :
    (s : Sched) → IsSched s → is_inside s.place ≡ false → IsSched (scheduler_step s)
unfolding scheduler_step
scheduler_step-IsSched s is out = at s.place refl
  where
    go_on :
        (place : Place)
        → is_inside place ≡ false
        → scheduler_step s ≡ record s { place = place }
        → IsSched (scheduler_step s)
    go_on place out' eq = subst IsSched (sym eq) (moved s place is out out')

    at : (place : Place) → s.place ≡ place → IsSched (scheduler_step s)
    at (scanning i run) e = elim (Bool-cases (ltb i 64)) [
      | inl more ↦ elim (Bool-cases (eligible (task s i))) [
        | inl ok ↦
            let eq : scheduler_step s ≡ dispatch s i = ground (arith, e, more, ok) in
            subst IsSched (sym eq) (dispatch-IsSched s i run is e (ground arith) ok)
        | inr passed ↦ go_on (scanning (suc i) run) refl (ground (arith, e, more, passed))
      ]
      | inr over ↦ elim (Bool-cases run) [
        | inl ran ↦ go_on (scanning 0 false) refl (ground (arith, e, over, ran))
        | inr idle ↦ go_on stopped refl (ground (arith, e, over, idle))
      ]
    ]
    at (inside i run) e = absurd (ground (arith, out, e))
    at stopped e = subst IsSched (ground (arith, e)) is
