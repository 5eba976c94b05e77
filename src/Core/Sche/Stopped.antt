-- ===== src/Core/Sche/Stopped.antt =====
-- When the scheduler shuts the machine down.

use mathlib.Core.Path.{subst}
use loos_lab.Base.{
  ℕ, suc, ◌≤◌, ◌<◌, ◌≡◌, refl, sym, inl, inr, Bool, true, false, arith, ltb, ◌==◌, ltb→lt, ltb→le,
  ==→eq, Bool-cases, set,
}
use loos_lab.Core.Sche.{
  Task, Place, Sched, task, is_running, set_state, dispatch, eligible, scheduler_step,
  back_to_scheduler, yield, kill, start_task, reap, exit, task_zombie, scanning, inside, stopped,
}
use loos_lab.Core.Sche.Step.{
  is_inside, Step, Steps, loop, yields, exits, starts, reaps, kills, here, next,
}

-- No task below `i` could have been taken.
abbrev pub PassedOver : Sched → ℕ → Type 0
PassedOver s i = (j : ℕ) → j < i → eligible (task s j) ≡ false

-- In a round that has taken no task so far, what the loop has passed over is not runnable.
abbrev pub Idle : Sched → Place → Type 0
Idle s (scanning i true) = i ≤ 64
Idle s (scanning i false) = (i ≤ 64) × PassedOver s i
Idle s (inside i run) = (i < 64) × (run ≡ true)
Idle s stopped = PassedOver s 64

loop-Idle :
    (s : Sched)
    → is_inside s.place ≡ false
    → Idle s s.place
    → Idle (scheduler_step s) (scheduler_step s).place
unfolding scheduler_step dispatch
loop-Idle s out idle = at s.place refl (subst (λ (p : Place). Idle s p) refl idle)
  where
    go_on :
        (place : Place)
        → scheduler_step s ≡ record s { place = place }
        → Idle (record s { place = place }) place
        → Idle (scheduler_step s) (scheduler_step s).place
    go_on place eq h = subst (λ (s' : Sched). Idle s' s'.place) (sym eq) h

    further :
        (i : ℕ) (run : Bool)
        → Idle s (scanning i run)
        → i < 64
        → eligible (task s i) ≡ false
        → Idle (record s { place = scanning (suc i) run }) (scanning (suc i) run)
    further i true h lt passed = omega arith
    further i false h lt passed = (
      omega arith,
      λ j jlt. elim (Bool-cases (j == i)) [
        | inl same ↦ rw (==→eq j i same) passed
        | inr differ ↦ h.1 j (ground arith)
      ],
    )

    all :
        (i : ℕ) (run : Bool)
        → Idle s (scanning i run)
        → run ≡ false
        → 64 ≤ i
        → Idle (record s { place = stopped }) stopped
    all i true h quiet ge = absurd (ground arith)
    all i false h quiet ge = λ j lt. h.1 j (omega arith)

    at : (p : Place) → s.place ≡ p → Idle s p → Idle (scheduler_step s) (scheduler_step s).place
    at (scanning i run) e h = elim (Bool-cases (ltb i 64)) [
      | inl more ↦ elim (Bool-cases (eligible (task s i))) [
        | inl ok ↦
            let eq : scheduler_step s ≡ dispatch s i = ground (arith, e, more, ok) in
            subst (λ (s' : Sched). Idle s' s'.place) (sym eq) (ground arith, refl)
        | inr passed ↦
            go_on (scanning (suc i) run) (ground (arith, e, more, passed))
              (further i run h (ltb→lt i 64 more) passed)
      ]
      | inr over ↦ elim (Bool-cases run) [
        | inl ran ↦
            go_on (scanning 0 false) (ground (arith, e, over, ran))
              (omega arith, λ j lt. absurd (omega arith))
        | inr quiet ↦
            go_on stopped (ground (arith, e, over, quiet)) (all i run h quiet (ltb→le i 64 over))
      ]
    ]
    at (inside i run) e h = absurd (ground (arith, out, e))
    at stopped e h = go_on stopped (ground (arith, e)) h

-- Where a task goes on, a task was taken in this round, and it leaves the loop where it was.
leave-Idle :
    (s s' : Sched)
    → is_inside s.place ≡ true
    → s'.place ≡ back_to_scheduler s.place
    → Idle s s.place
    → Idle s' s'.place
leave-Idle s s' ins eq idle = subst (λ (p : Place). Idle s' p) (sym eq) (at s.place ins idle)
  where
    at : (p : Place) → is_inside p ≡ true → Idle s p → Idle s' (back_to_scheduler p)
    at (scanning i run) h idle = absurd (ground arith)
    at (inside i true) h idle = omega (arith, idle.0)
    at (inside i false) h idle = absurd (ground (arith, idle.1))
    at stopped h idle = absurd (ground arith)

yield_place : (s : Sched) → (yield s).place ≡ back_to_scheduler s.place
unfolding yield
yield_place s = elim (Bool-cases (is_running (task s s.cur_proc).state)) [
  | inl running ↦ rw running refl
  | inr waiting ↦ rw waiting refl
]

stay-Idle :
    (s s' : Sched)
    → is_inside s.place ≡ true
    → s'.place ≡ s.place
    → Idle s s.place
    → Idle s' s'.place
stay-Idle s s' ins eq idle = subst (λ (p : Place). Idle s' p) (sym eq) (at s.place ins idle)
  where
    at : (p : Place) → is_inside p ≡ true → Idle s p → Idle s' p
    at (scanning i run) h idle = absurd (ground arith)
    at (inside i run) h idle = idle
    at stopped h idle = absurd (ground arith)

Step-Idle : (s s' : Sched) → Step s s' → Idle s s.place → Idle s' s'.place
unfolding kill exit start_task reap
Step-Idle _ _ (loop s out) idle = loop-Idle s out idle
Step-Idle _ _ (yields s ins) idle = leave-Idle s (yield s) ins (yield_place s) idle
Step-Idle _ _ (exits s code ins) idle =
    let self : (s.cur_proc == s.cur_proc) ≡ true = ground arith in
    let left : Task = record (task s s.cur_proc) { exit_code = code } in
    let s₁ : Sched = record s { proc = set s.proc s.cur_proc left } in
    leave-Idle s (exit s code) ins (rw self (yield_place (set_state s₁ s.cur_proc task_zombie)))
      idle
Step-Idle _ _ (starts s i pid hi free ins) idle = stay-Idle s (start_task s i pid) ins refl idle
Step-Idle _ _ (reaps s i hi zombie ins) idle = stay-Idle s (reap s i) ins refl idle
Step-Idle _ _ (kills s p hp ins) idle = elim (Bool-cases (p == s.cur_proc)) [
  | inl self ↦ leave-Idle s (kill s p) ins (rw self (yield_place (set_state s p task_zombie))) idle
  | inr another ↦ stay-Idle s (kill s p) ins (rw another refl) idle
]

Steps-Idle : (s s' : Sched) → Steps s s' → Idle s s.place → Idle s' s'.place
Steps-Idle _ _ (here s) idle = idle
Steps-Idle _ _ (next s s' s'' before last) idle =
    Step-Idle s' s'' last (Steps-Idle s s' before idle)

-- Started at the beginning of a round, the scheduler shuts the machine down only when no task but the kernel task is
-- runnable, whichever tasks yield, exit, kill others, start new ones or take up zombies before.
pub stopped_lem :
    (s s' : Sched)
    → s.place ≡ scanning 0 false
    → Steps s s'
    → s'.place ≡ stopped
    → (j : ℕ) → j < 64
    → eligible (task s' j) ≡ false
stopped_lem s s' start steps stop =
    let first : Idle s s.place =
      subst (λ (p : Place). Idle s p) (sym start) (omega arith, λ j lt. absurd (omega arith)) in
    subst (λ (p : Place). Idle s' p) stop (Steps-Idle s s' steps first)
