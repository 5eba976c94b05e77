-- ===== src/Core/Wait/Any.antt =====
-- `sys_wait4` of core/syscall.c with pid -1: which child it collects, and when it gives up.

use loos_lab.Base.{
  ℕ, zero, suc, ◌+◌, ◌-◌, ◌*◌, ◌^◌, ◌<◌, ◌≡◌, refl, sym, ap, ◌∙◌, ◌≢◌, Bool, true, false, ◌||◌,
  Option, none, some, List, [], ◌∷◌, ◌++◌, arith, ne→==, length, get_or-set_self, get_or-set_ne,
}
use loos_lab.Base.Int.{sign_extend}
use loos_lab.Base.Run.{Run, done}
use loos_lab.Memory.{Mem}
use loos_lab.Memory.Words.{get64, get64-put64_self}
use loos_lab.Core.Sche.{Task, no_task, is_running, is_runable, is_zombie, task_killed}
use loos_lab.Core.Wait.{
  Family, RusageLayout, member, find_zombie, after_scan, wait_any, put_rusage, put_status, collect,
  sys_wait4,
}
use native.Mathlib.Nat.{add-zero, zero-add}

-- The table when the caller goes on after `r` yields, the first of which is its `k`-th.
abbrev pub later : (yields : ℕ → Family → Family) → (k : ℕ) → Family → (r : ℕ) → Family
later yields k t zero = t
later yields k t (suc r) = later yields (k + 1) (yields k t) r

abbrev pub NoZombie : Family → List ℕ → Type 0
NoZombie t [] = Unit
NoZombie t (i ∷ is) = (is_zombie (member t i).state ≡ false) × NoZombie t is

-- Whether one of the children is running or runnable.
abbrev pub any_runs : Family → List ℕ → Bool
any_runs t [] = false
any_runs t (i ∷ is) =
    (is_running (member t i).state || is_runable (member t i).state) || any_runs t is

-- The caller has to wait: no child can be collected, but one still runs.
abbrev pub Waits : Family → Type 0
Waits t = NoZombie t t.children × (any_runs t t.children ≡ true)

or_assoc : (a b c : Bool) → ((a || b) || c) ≡ (a || (b || c))
or_assoc true b c = refl
or_assoc false b c = refl

or_false : (a : Bool) → (a || false) ≡ a
or_false true = refl
or_false false = refl

find_zombie-NoZombie :
    (t : Family) (is : List ℕ) (r : Bool)
    → NoZombie t is
    → find_zombie t is r ≡ (none, r || any_runs t is)
unfolding find_zombie
find_zombie-NoZombie t [] r h = ap (λ (b : Bool). (none, b)) (sym (or_false r))
find_zombie-NoZombie t (i ∷ is) r h = rw h.0 (
    find_zombie-NoZombie t is
      (r || (is_running (member t i).state || is_runable (member t i).state)) h.1
    ∙ ap (λ (b : Bool). (none, b)) (or_assoc r _ (any_runs t is)))

first_zombie_found :
    (t : Family) (before : List ℕ) (i : ℕ) (after : List ℕ) (r : Bool)
    → NoZombie t before
    → is_zombie (member t i).state ≡ true
    → find_zombie t (before ++ (i ∷ after)) r ≡ (some i, r || any_runs t before)
unfolding find_zombie
first_zombie_found t [] i after r h z = rw (z, or_false r) refl
first_zombie_found t (j ∷ before) i after r h z = rw h.0 (
    first_zombie_found t before i after
      (r || (is_running (member t j).state || is_runable (member t j).state)) h.1 z
    ∙ ap (λ (b : Bool). (some i, b)) (or_assoc r _ (any_runs t before)))

module _ (yields : ℕ → Family → Family) where
  found_round :
      (n k : ℕ) (t : Family) (i : ℕ) (b : Bool)
      → find_zombie t t.children false ≡ (some i, b)
      → wait_any (suc n) yields k t ≡ done (some i, t)
  unfolding wait_any after_scan
  found_round n k t i b e = ap (λ p. after_scan p t (wait_any n yields (k + 1) (yields k t))) e

  waiting_round :
      (n k : ℕ) (t : Family)
      → Waits t
      → wait_any (suc n) yields k t ≡ wait_any n yields (k + 1) (yields k t)
  unfolding wait_any after_scan
  waiting_round n k t w =
      ap (λ p. after_scan p t (wait_any n yields (k + 1) (yields k t)))
        (find_zombie-NoZombie t t.children false w.0 ∙ ap (λ (b : Bool). (none, b)) w.1)

  last_round :
      (n k : ℕ) (t : Family)
      → NoZombie t t.children
      → any_runs t t.children ≡ false
      → wait_any (suc n) yields k t ≡ done (none, t)
  unfolding wait_any after_scan
  last_round n k t h e =
      ap (λ p. after_scan p t (wait_any n yields (k + 1) (yields k t)))
        (find_zombie-NoZombie t t.children false h ∙ ap (λ (b : Bool). (none, b)) e)

  after_waiting :
      (r fuel k : ℕ) (t : Family)
      → ((q : ℕ) → q < r → Waits (later yields k t q))
      → wait_any (r + fuel) yields k t ≡ wait_any fuel yields (k + r) (later yields k t r)
  after_waiting zero fuel k t w = rw (zero-add fuel, add-zero k) refl
  after_waiting (suc r) fuel k t w =
      let e : suc r + fuel ≡ suc (r + fuel) = omega arith in
      let e' : k + 1 + r ≡ k + suc r = omega arith in
      rw e (
        waiting_round (r + fuel) k t (w 0 (omega arith))
        ∙ after_waiting r fuel (k + 1) (yields k t) (λ q lt. w (suc q) (omega arith))
        ∙ ap (λ (x : ℕ). wait_any fuel yields x (later yields (k + 1) (yields k t) r)) e')

sign_extend_bound : (x : ℕ) → sign_extend x < 2 ^ 64
unfolding sign_extend
sign_extend_bound x = ground arith

module _ (l : RusageLayout) (m : Mem) (t : Family) (i wstatus rusage : ℕ) where
  collect_state :
      i < length (Family.proc t) → (member (collect l m t i wstatus rusage).2 i).state ≡ task_killed
  unfolding collect
  collect_state h = ap Task.state (get_or-set_self (Family.proc t) i _ no_task h)

  collect_others : (j : ℕ) → j ≢ i → member (collect l m t i wstatus rusage).2 j ≡ member t j
  unfolding collect
  collect_others j h = get_or-set_ne (Family.proc t) i j _ no_task (λ e. h (sym e))

  collect_status :
      wstatus ≢ 0
      → get64 (collect l m t i wstatus rusage).1 wstatus
        ≡ sign_extend ((member t i).exit_code * 256)
  unfolding collect put_status
  collect_status h = rw (ne→== wstatus 0 h) (
      get64-put64_self (put_rusage l m rusage) wstatus (sign_extend ((member t i).exit_code * 256))
        (sign_extend_bound _))

module _ (fuel r : ℕ) (l : RusageLayout) (yields : ℕ → Family → Family) (m : Mem) (t : Family)
    (me wstatus rusage : ℕ) (enough : r < fuel)
    (waiting : (q : ℕ) → q < r → Waits (later yields 0 t q)) where
  rounds :
      (a : Run (Option ℕ × Family))
      → ((n : ℕ) → wait_any (suc n) yields r (later yields 0 t r) ≡ a)
      → wait_any fuel yields 0 t ≡ a
  rounds a last =
      let e : fuel ≡ r + suc (fuel - r - 1) = omega arith in
      rw e (
        after_waiting yields r (suc (fuel - r - 1)) 0 t waiting
        ∙ rw (zero-add r) (last (fuel - r - 1)))

  -- If for `r` rounds no child is a zombie but one runs, and then `i` is the first zombie of the children, `sys_wait4` of
  -- -1 answers the number of `i` within `r + 1` rounds, stores its exit code, shifted, and makes it TASK_KILLED;
  -- all other tasks are as they were then.
  pub sys_wait4-first_zombie :
      (before : List ℕ) (i : ℕ) (after : List ℕ)
      → (later yields 0 t r).children ≡ before ++ (i ∷ after)
      → NoZombie (later yields 0 t r) before
      → is_zombie (member (later yields 0 t r) i).state ≡ true
      → i < length (later yields 0 t r).proc
      → wstatus ≢ 0
      → (m' : Mem) × (t' : Family) × (sys_wait4 fuel l yields m t me (2 ^ 64 - 1) wstatus rusage
          ≡ done (sign_extend (member (later yields 0 t r) i).pid, m', t'))
        × (get64 m' wstatus ≡ sign_extend ((member (later yields 0 t r) i).exit_code * 256))
        × ((member t' i).state ≡ task_killed)
        × ((j : ℕ) → j ≢ i → member t' j ≡ member (later yields 0 t r) j)
  unfolding sys_wait4
  sys_wait4-first_zombie before i after split none_before zombie in_table stored =
      let t' = later yields 0 t r in
      let found = first_zombie_found t' before i after false none_before zombie in
      let call : wait_any fuel yields 0 t ≡ done (some i, t') =
        rounds (done (some i, t'))
          (λ n. found_round yields n r t' i _ (ap (λ is. find_zombie t' is false) split ∙ found)) in
      (
        (collect l m t' i wstatus rusage).1,
        (collect l m t' i wstatus rusage).2,
        rw call refl,
        collect_status l m t' i wstatus rusage stored,
        collect_state l m t' i wstatus rusage in_table,
        collect_others l m t' i wstatus rusage,
      )

  -- If for `r` rounds no child is a zombie but one runs, and then no child is a zombie and none runs, the call answers -1
  -- and writes nothing.
  pub sys_wait4-no_child :
      NoZombie (later yields 0 t r) (later yields 0 t r).children
      → any_runs (later yields 0 t r) (later yields 0 t r).children ≡ false
      → sys_wait4 fuel l yields m t me (2 ^ 64 - 1) wstatus rusage
        ≡ done (2 ^ 64 - 1, m, later yields 0 t r)
  unfolding sys_wait4
  sys_wait4-no_child none_left none_runs =
      rw
        (rounds (done (none, later yields 0 t r))
          (λ n. last_round yields n r (later yields 0 t r) none_left none_runs))
        refl
