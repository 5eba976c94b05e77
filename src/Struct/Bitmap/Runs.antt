-- ===== src/Struct/Bitmap/Runs.antt =====
-- Runs of places: `bitmap_alloc` and `bitmap_free` of lolibc/struct/bitmap.c.

use native.Mathlib.Nat.{add-zero}
use loos_lab.Base.{
  ℕ, zero, suc, ◌+◌, ◌^◌, ◌≤◌, ◌<◌, ◌≡◌, refl, ap, ◌∙◌, ◌⊎◌, inl, inr, Bool, true, false, arith,
  ◌==◌, if◌then◌else◌, ==→eq, ==→ne, ne→==, Bool-cases,
}
use loos_lab.Base.Run.{done, halted}
use loos_lab.Memory.{Mem, within}
use loos_lab.Struct.Bitmap.{free_run, set_run, bitmap_free}
use loos_lab.Struct.Bitmap.Bits.{
  taken, IsByteMem, with_status, taken-with_status, with_status-IsByteMem, in_use_lem, in_use_end,
  set_status_lem,
}

-- The `n` places from `s` on are free.
abbrev pub Free : Mem → (page_map s n : ℕ) → Type 0
Free m page_map s n = (k : ℕ) → s ≤ k → k < s + n → taken m page_map k ≡ false

-- Up to the first place that is taken.
pub run_cases :
    (m : Mem) (page_map n s : ℕ)
    → Free m page_map s n
      ⊎ ((t : ℕ) × (t < n) × Free m page_map s t × (taken m page_map (s + t) ≡ true))
run_cases m page_map zero s = inl (λ k lo hi. absurd (omega arith))
run_cases m page_map (suc n) s = elim (run_cases m page_map n s) [
  | inr (t, lt, free, here) ↦ inr (t, omega arith, free, here)
  | inl free ↦ elim (Bool-cases (taken m page_map (s + n))) [
    | inl here ↦ inr (n, omega arith, free, here)
    | inr not_here ↦ inl (λ k lo hi. elim (Bool-cases (k == s + n)) [
      | inl e ↦ rw (==→eq k (s + n) e) not_here
      | inr e ↦ free k lo (omega (arith, ==→ne k (s + n) e))
    ])
  ]
]

-- `n` places from `i` on got the status, in order.
abbrev pub run_status : (n : ℕ) → Mem → (page_map i : ℕ) → Bool → Mem
run_status zero m page_map i status = m
run_status (suc n) m page_map i status =
    run_status n (with_status m page_map i status) page_map (i + 1) status

pub run_status-IsByteMem :
    (n : ℕ) (m : Mem) (page_map i : ℕ) (status : Bool)
    → IsByteMem m
    → IsByteMem (run_status n m page_map i status)
run_status-IsByteMem zero m page_map i status bytes = bytes
run_status-IsByteMem (suc n) m page_map i status bytes =
    run_status-IsByteMem n (with_status m page_map i status) page_map (i + 1) status
      (with_status-IsByteMem m page_map i status bytes)

pub taken-run_status :
    (n : ℕ) (m : Mem) (page_map i j : ℕ) (status : Bool)
    → IsByteMem m
    → taken (run_status n m page_map i status) page_map j
      ≡ (if within i n j then status else taken m page_map j)
taken-run_status zero m page_map i j status bytes = ground arith
taken-run_status (suc n) m page_map i j status bytes =
    taken-run_status n (with_status m page_map i status) page_map (i + 1) j status
      (with_status-IsByteMem m page_map i status bytes)
    ∙ ap (λ (b : Bool). if within (i + 1) n j then status else b)
        (taken-with_status m page_map i j status bytes)
    ∙ ground arith

module _ (m : Mem) (page_map map_max : ℕ) (small : map_max ≤ 2 ^ 31) where
  pub free_run_all :
      (n i j : ℕ)
      → i + j + n ≤ map_max
      → Free m page_map (i + j) n
      → free_run n m page_map map_max i j ≡ done (j + n)
  unfolding free_run
  free_run_all zero i j h free = rw (add-zero j)
  free_run_all (suc n) i j h free =
      rw
        (
          in_use_lem m page_map map_max small (i + j) (omega arith),
          free (i + j) (omega arith) (omega arith),
        )
        (free_run_all n i (j + 1) (omega arith) (λ k lo hi. free k (omega arith) (omega arith))
          ∙ ap (λ (x : ℕ). done x) (omega arith))

  -- The search of a run ends at a place that is taken,
  pub free_run_stop :
      (t n i j : ℕ)
      → t < n
      → i + j + t < map_max
      → Free m page_map (i + j) t
      → taken m page_map (i + j + t) ≡ true
      → free_run n m page_map map_max i j ≡ done (j + t)
  unfolding free_run
  free_run_stop t zero i j lt h free here = absurd (omega arith)
  free_run_stop zero (suc n) i j lt h free here = rw (
    in_use_lem m page_map map_max small (i + j) (omega arith),
    rw (add-zero (i + j)) at here,
    add-zero j,
  )
  free_run_stop (suc t) (suc n) i j lt h free here =
      rw
        (
          in_use_lem m page_map map_max small (i + j) (omega arith),
          free (i + j) (omega arith) (omega arith),
        )
        (free_run_stop t n i (j + 1) (omega arith) (omega arith)
            (λ k lo hi. free k (omega arith) (omega arith))
            (ap (taken m page_map) (omega arith) ∙ here)
          ∙ ap (λ (x : ℕ). done x) (omega arith))

  -- or runs into the assertion at the end of the map.
  pub free_run_end :
      (t n i j : ℕ)
      → t < n
      → i + j + t ≡ map_max
      → Free m page_map (i + j) t
      → free_run n m page_map map_max i j ≡ halted
  unfolding free_run
  free_run_end t zero i j lt h free = absurd (omega arith)
  free_run_end zero (suc n) i j lt h free =
      let e : i + j ≡ map_max = omega arith in rw (e, in_use_end m page_map map_max small)
  free_run_end (suc t) (suc n) i j lt h free =
      rw
        (
          in_use_lem m page_map map_max small (i + j) (omega arith),
          free (i + j) (omega arith) (omega arith),
        )
        (free_run_end t n i (j + 1) (omega arith) (omega arith)
          (λ k lo hi. free k (omega arith) (omega arith)))

pub set_run_lem :
    (n : ℕ) (m : Mem) (page_map map_max i : ℕ)
    → map_max ≤ 2 ^ 31
    → i + n ≤ map_max
    → set_run n m page_map map_max i ≡ done (run_status n m page_map i true)
unfolding set_run
set_run_lem zero m page_map map_max i small h = refl
set_run_lem (suc n) m page_map map_max i small h =
    rw (set_status_lem m page_map map_max small i true (omega arith))
      (set_run_lem n (with_status m page_map i true) page_map map_max (i + 1) small (omega arith))

pub bitmap_free_lem :
    (n : ℕ) (m : Mem) (page_map map_max i : ℕ)
    → map_max ≤ 2 ^ 31
    → i + n ≤ map_max
    → IsByteMem m
    → ((k : ℕ) → i ≤ k → k < i + n → taken m page_map k ≡ true)
    → bitmap_free m page_map map_max i n ≡ done (run_status n m page_map i false)
unfolding bitmap_free
bitmap_free_lem zero m page_map map_max i small h bytes used = refl
bitmap_free_lem (suc n) m page_map map_max i small h bytes used =
    rw
      (
        in_use_lem m page_map map_max small i (omega arith),
        used i (omega arith) (omega arith),
        set_status_lem m page_map map_max small i false (omega arith),
      )
      (bitmap_free_lem n (with_status m page_map i false) page_map map_max (i + 1) small
        (omega arith) (with_status-IsByteMem m page_map i false bytes)
        (λ k lo hi.
          taken-with_status m page_map i k false bytes
          ∙ rw (ne→== k i (omega arith)) (used k (omega arith) (omega arith))))
