-- ===== src/Core/Sche/Leave.antt =====
-- A task gives up the processor: the invariant through `yield`, `kill` and `exit`, and in every state
-- that the machine reaches.

use mathlib.Core.Path.{subst}
use loos_lab.Base.{
  ℕ, ◌≤◌, ◌<◌, ◌≡◌, refl, sym, ◌∙◌, ◌≢◌, inl, inr, true, false, arith, ◌==◌, Bool-cases, length,
  length-set,
}
use loos_lab.Core.Sche.{
  Place, Sched, task, is_running, set_state, back_to_scheduler, yield, kill, task_running,
  task_runable, task_zombie, scanning, inside, stopped,
}
use loos_lab.Core.Sche.Step.{is_inside, Step}
use loos_lab.Core.Sche.Exclusive.{active, Placed, IsSched, task-set_state}

-- The scheduler goes on, the kernel task running, after the other tasks stopped running.
resumed :
    (s : Sched)
    → length s.proc ≡ 64
    → ((task s 0).pid ≡ 0) × ((task s 0).used ≡ true)
    → ((j : ℕ) → (task s j).used ≡ true → j ≢ 0 → is_running (task s j).state ≡ false)
    → IsSched (record (set_state s 0 task_running) { place = back_to_scheduler s.place })
resumed s size kernel others =
    let s' = set_state s 0 task_running in
    record {
      size = length-set s.proc 0 (record (task s 0) { state = task_running }) ∙ size;
      kernel = ground (arith, kernel, task-set_state s 0 0 task_running size (omega arith));
      placed = at s.place;
      exclusive = λ j used. ground (
        arith,
        others j,
        kernel_active s.place,
        task-set_state s 0 j task_running size (omega arith),
      );
    }
  where
    at :
        (p : Place)
        → Placed
            (record (set_state s 0 task_running) { place = back_to_scheduler s.place })
            (back_to_scheduler p)
    at (scanning i run) = tt
    at (inside i run) = tt
    at stopped = tt

    kernel_active : (p : Place) → active (back_to_scheduler p) ≡ 0
    kernel_active (scanning i run) = refl
    kernel_active (inside i run) = refl
    kernel_active stopped = refl

-- The current task gives up the processor: whatever its state is, no other task was running.
yield_lem :
    (s : Sched) (i : ℕ)
    → length s.proc ≡ 64
    → ((task s 0).pid ≡ 0) × ((task s 0).used ≡ true)
    → i ≡ s.cur_proc
    → 1 ≤ i
    → i < 64
    → ((j : ℕ) → (task s j).used ≡ true → j ≢ i → is_running (task s j).state ≡ false)
    → IsSched (yield s)
unfolding yield
yield_lem s i size kernel cur lo hi others =
    elim (Bool-cases (is_running (task s s.cur_proc).state)) [
      | inl was_running ↦
          let s₁ = set_state s s.cur_proc task_runable in
          let size₁ : length s₁.proc ≡ 64 =
            length-set s.proc s.cur_proc (record (task s s.cur_proc) { state = task_runable })
            ∙ size in
          let stored = λ (j : ℕ). task-set_state s s.cur_proc j task_runable size (omega arith) in
          let eq : yield s
              ≡ record (set_state s₁ 0 task_running) { place = back_to_scheduler s₁.place } =
            rw was_running refl in
          subst IsSched (sym eq) (
            resumed s₁ size₁ (ground (arith, kernel, stored 0))
              (λ j used ne. ground (arith, others j, stored j)))
      | inr not_running ↦
          let eq : yield s
              ≡ record (set_state s 0 task_running) { place = back_to_scheduler s.place } =
            rw not_running refl in
          subst IsSched (sym eq)
            (resumed s size kernel (λ j used ne. ground (arith, others j, not_running)))
    ]

-- Where a task goes on, it is the current one and not the kernel task.
current :
    (s : Sched)
    → IsSched s
    → is_inside s.place ≡ true
    → (1 ≤ s.cur_proc) × (s.cur_proc < 64) × (active s.place ≡ s.cur_proc)
current s is ins = at s.place is.placed ins
  where
    at :
        (p : Place)
        → Placed s p
        → is_inside p ≡ true
        → (1 ≤ s.cur_proc) × (s.cur_proc < 64) × (active p ≡ s.cur_proc)
    at (scanning i run) ok h = absurd (ground arith)
    at (inside i run) ok h = (omega (arith, ok.0, ok.1), omega (arith, ok.0, ok.2), ok.0)
    at stopped ok h = absurd (ground arith)

pub yield-IsSched : (s : Sched) → IsSched s → is_inside s.place ≡ true → IsSched (yield s)
yield-IsSched s is ins =
    let (lo, hi, act) = current s is ins in
    yield_lem s s.cur_proc is.size is.kernel refl lo hi
      (λ j used ne. ground (arith, is.exclusive j used, act))

pub kill-IsSched :
    (s : Sched) (p : ℕ) → p < 64 → IsSched s → is_inside s.place ≡ true → IsSched (kill s p)
unfolding kill
kill-IsSched s p hp is ins =
    let (lo, hi, act) = current s is ins in
    let s₁ = set_state s p task_zombie in
    let size₁ : length s₁.proc ≡ 64 =
      length-set s.proc p (record (task s p) { state = task_zombie }) ∙ is.size in
    let stored = λ (j : ℕ). task-set_state s p j task_zombie is.size hp in
    let kernel₁ : ((task s₁ 0).pid ≡ 0) × ((task s₁ 0).used ≡ true) =
      ground (arith, is.kernel, stored 0) in
    elim (Bool-cases (p == s.cur_proc)) [
      | inl self ↦
          let eq : kill s p ≡ yield s₁ = rw self refl in
          subst IsSched (sym eq) (
            yield_lem s₁ s.cur_proc size₁ kernel₁ refl lo hi
              (λ j used ne. ground (arith, is.exclusive j, act, stored j, used)))
      | inr another ↦
          let eq : kill s p ≡ s₁ = rw another refl in
          subst IsSched (sym eq) (record {
            size = size₁;
            kernel = kernel₁;
            placed = kept s.place is.placed;
            exclusive = λ j used. ground (arith, is.exclusive j, act, stored j, used);
          })
    ]
  where
    kept : (pl : Place) → Placed s pl → Placed (set_state s p task_zombie) pl
    kept (scanning i run) ok = tt
    kept (inside i run) ok =
        (ok.0, ok.1, ok.2, ground (arith, task-set_state s p i task_zombie is.size hp, ok), ok.4)
    kept stopped ok = tt
