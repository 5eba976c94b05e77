-- ===== src/Core/Sche/Fair.antt =====
-- Which task the loop takes next.

use loos_lab.Core.Sche.Exclusive.{task-set_state}
use mathlib.Core.Path.{subst}
use loos_lab.Base.{
  ℕ, zero, suc, ◌+◌, ◌-◌, ◌≤◌, ◌<◌, ◌≡◌, refl, sym, ap, ◌∙◌, ◌≢◌, Bool, true, false, arith, ltb,
  length, length-set,
}
use loos_lab.Core.Sche.{
  Sched, task, set_state, dispatch, eligible, scheduler_step, task_running, task_runable, scanning,
  inside,
}

-- `n` steps of the loop.
abbrev pub scan : ℕ → Sched → Sched
scan zero s = s
scan (suc n) s = scan n (scheduler_step s)

scan_ahead :
    (n : ℕ) (s : Sched) (i k : ℕ) (run : Bool)
    → s.place ≡ scanning i run
    → k ≡ i + n
    → k < 64
    → eligible (task s k) ≡ true
    → ((j : ℕ) → i ≤ j → j < k → eligible (task s j) ≡ false)
    → scan (suc n) s ≡ dispatch s k
unfolding scheduler_step dispatch
scan_ahead zero s i k run at e lt ok others =
    let same : i ≡ k = omega arith in
    let more : ltb i 64 ≡ true = ground arith in
    let ok' : eligible (task s i) ≡ true = rw same ok in
    let eq : scheduler_step s ≡ dispatch s i = ground (arith, at, more, ok') in
    eq ∙ ap (dispatch s) same
scan_ahead (suc n) s i k run at e lt ok others =
    let s' : Sched = record s { place = scanning (suc i) run } in
    let more : ltb i 64 ≡ true = ground arith in
    let passed : eligible (task s i) ≡ false = others i (omega arith) (omega arith) in
    let eq : scheduler_step s ≡ s' = ground (arith, at, more, passed) in
    ap (scan (suc n)) eq
    ∙ scan_ahead n s' (suc i) k run refl (omega arith) lt ok (λ j lo hi. others j (omega arith) hi)

-- The scheduler has switched to task `k`: it is the current one and goes on, TASK_RUNNING, and the kernel task has
-- become TASK_RUNABLE; every other task is as before.
pub record Switched (s s' : Sched) (k : ℕ) : Type 0 where
  pub current : s'.cur_proc ≡ k
  pub goes_on : s'.place ≡ inside k true
  pub running : task s' k ≡ record (task s k) { state = task_running }
  pub kernel : k ≢ 0 → task s' 0 ≡ record (task s 0) { state = task_runable }
  pub others : (j : ℕ) → j ≢ 0 → j ≢ k → task s' j ≡ task s j

dispatch-Switched : (s : Sched) (k : ℕ) → length s.proc ≡ 64 → k < 64 → Switched s (dispatch s k) k
unfolding dispatch
dispatch-Switched s k size lt =
    let s₁ = set_state s 0 task_runable in
    let size₁ : length s₁.proc ≡ 64 =
      length-set s.proc 0 (record (task s 0) { state = task_runable }) ∙ size in
    let first = λ (j : ℕ). task-set_state s 0 j task_runable size (omega arith) in
    let second = λ (j : ℕ). task-set_state s₁ k j task_running size₁ lt in
    record {
      current = refl;
      goes_on = refl;
      running = ground (arith, first k, second k);
      kernel = λ ne. ground (arith, first 0, second 0, ne);
      others = λ j nz ne. ground (arith, first j, second j, nz, ne);
    }

-- With a table of 64 tasks, the loop goes on from any place of a round to the first runnable task that is still ahead,
-- and switches to it.
pub scan-Switched :
    (s : Sched) (i k : ℕ) (run : Bool)
    → length s.proc ≡ 64
    → s.place ≡ scanning i run
    → i ≤ k
    → k < 64
    → eligible (task s k) ≡ true
    → ((j : ℕ) → i ≤ j → j < k → eligible (task s j) ≡ false)
    → Switched s (scan (suc (k - i)) s) k
scan-Switched s i k run size at le lt ok others =
    subst (λ (s' : Sched). Switched s s' k)
      (sym (scan_ahead (k - i) s i k run at (omega arith) lt ok others))
      (dispatch-Switched s k size lt)
