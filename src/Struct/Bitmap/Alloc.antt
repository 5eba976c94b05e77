-- ===== src/Struct/Bitmap/Alloc.antt =====
-- Which run `bitmap_alloc` of lolibc/struct/bitmap.c takes, and what giving it back leaves.

use loos_lab.Base.{
  ℕ, zero, suc, ◌+◌, ◌-◌, ◌^◌, ◌≤◌, ◌<◌, ◌≡◌, refl, sym, ap, ◌∙◌, ◌≢◌, ◌⊎◌, inl, inr, Bool, true,
  false, arith, ltb, if◌then◌else◌, ltb→lt, lt→ltb, ltb→le, le→ltb, le→leb, Bool-cases,
}
use loos_lab.Base.Run.{done, halted}
use loos_lab.Memory.{Mem, within}
use loos_lab.Struct.Bitmap.{alloc_loop, bitmap_alloc, bitmap_free}
use loos_lab.Struct.Bitmap.Bits.{taken, IsByteMem, in_use_lem}
use loos_lab.Struct.Bitmap.Runs.{
  Free, run_cases, run_status, run_status-IsByteMem, taken-run_status, free_run_all, free_run_stop,
  free_run_end, set_run_lem, bitmap_free_lem,
}
use native.Mathlib.Nat.{add-zero, zero-add}

pub both : {b : Bool} → b ≡ true → b ≡ false → ⊥
both yes_ no_ = cc

-- A taken place is off a free run.
taken_before :
    (m : Mem) (page_map k i cnt : ℕ)
    → Free m page_map i cnt
    → taken m page_map k ≡ true
    → (k < i) ⊎ (i + cnt ≤ k)
taken_before m page_map k i cnt free used = elim (Bool-cases (ltb k i)) [
  | inl lt ↦ inl (ltb→lt k i lt)
  | inr ge ↦ elim (Bool-cases (ltb k (i + cnt))) [
    | inl lt ↦ absurd (both used (free k (ltb→le k i ge) (ltb→lt k (i + cnt) lt)))
    | inr above ↦ inr (ltb→le k (i + cnt) above)
  ]
]

not_last :
    (m : Mem) (page_map map_max k : ℕ)
    → taken m page_map (map_max - 1) ≡ false
    → taken m page_map k ≡ true
    → k ≢ map_max - 1
not_last m page_map map_max k last used e = both used (ap (taken m page_map) e ∙ last)

module _ (m : Mem) (page_map map_max cnt : ℕ) (small : map_max ≤ 2 ^ 31)
    (some_places : 0 < cnt) where
  used_step :
      (f s : ℕ)
      → s < map_max
      → taken m page_map s ≡ true
      → alloc_loop (suc f) m page_map map_max cnt s ≡ alloc_loop f m page_map map_max cnt (s + 1)
  unfolding alloc_loop
  used_step f s lt used = rw (lt→ltb s map_max lt, in_use_lem m page_map map_max small s lt, used)

  skip_step :
      (f s t : ℕ)
      → t < cnt
      → s + t < map_max
      → Free m page_map s t
      → 0 < t
      → taken m page_map (s + t) ≡ true
      → alloc_loop (suc f) m page_map map_max cnt s
        ≡ alloc_loop f m page_map map_max cnt (s + t + 1)
  unfolding alloc_loop
  skip_step f s t lt fit before pos_t used =
      rw
        (
          lt→ltb s map_max (omega arith),
          in_use_lem m page_map map_max small s (omega arith),
          before s (omega arith) (omega arith),
          free_run_stop m page_map map_max small t cnt s 0 lt (omega arith)
              (λ k lo hi. before k (omega arith) (omega arith)) (rw (add-zero s) used),
          zero-add t,
          lt→ltb t cnt lt,
        )
        refl

  take_step :
      (f s : ℕ)
      → s + cnt ≤ map_max
      → Free m page_map s cnt
      → alloc_loop (suc f) m page_map map_max cnt s ≡ done (s, run_status cnt m page_map s true)
  unfolding alloc_loop
  take_step f s fit free =
      rw
        (
          lt→ltb s map_max (omega arith),
          in_use_lem m page_map map_max small s (omega arith),
          free s (omega arith) (omega arith),
          free_run_all m page_map map_max small cnt s 0 (omega arith)
              (λ k lo hi. free k (omega arith) (omega arith)),
          zero-add cnt,
          le→ltb cnt cnt (omega arith),
          set_run_lem cnt m page_map map_max s small fit,
        )
        refl

  end_step :
      (f s t : ℕ)
      → 0 < t
      → t < cnt
      → s + t ≡ map_max
      → Free m page_map s t
      → alloc_loop (suc f) m page_map map_max cnt s ≡ halted
  unfolding alloc_loop
  end_step f s t pos_t lt end free = rw (
    lt→ltb s map_max (omega arith),
    in_use_lem m page_map map_max small s (omega arith),
    free s (omega arith) (omega arith),
    free_run_end m page_map map_max small t cnt s 0 lt (omega arith)
        (λ k lo hi. free k (omega arith) (omega arith)),
  )

  alloc_loop_lem :
      (f s i : ℕ)
      → s ≤ i
      → i < s + f
      → i + cnt ≤ map_max
      → Free m page_map i cnt
      → ((k : ℕ) → s ≤ k → k < i → ¬ Free m page_map k cnt)
      → alloc_loop f m page_map map_max cnt s ≡ done (i, run_status cnt m page_map i true)
  alloc_loop_lem zero s i le fuel fit free none_before = absurd (omega arith)
  alloc_loop_lem (suc f) s i le fuel fit free none_before = elim (Bool-cases (taken m page_map s)) [
    | inl used ↦
        used_step f s (omega arith) used
        ∙ alloc_loop_lem f (s + 1) i (omega (arith, taken_before m page_map s i cnt free used))
            (omega arith) fit free (λ k lo. none_before k (omega arith))
    | inr unused ↦ elim (run_cases m page_map cnt s) [
      | inl all ↦ let e : s ≡ i = first_fit all in rw (sym e) (take_step f s (omega arith) all)
      | inr (zero, lt, before, used) ↦ absurd (both (rw (add-zero s) at used) unused)
      | inr (suc t, lt, before, used) ↦
          let below : (s + suc t < i) ⊎ (i + cnt ≤ s + suc t) =
            taken_before m page_map (s + suc t) i cnt free used in
          skip_step f s (suc t) lt (omega arith) before (omega arith) used
          ∙ alloc_loop_lem f (s + suc t + 1) i (omega arith) (omega arith) fit free
              (λ k lo. none_before k (omega arith))
    ]
  ]
    where
      first_fit : Free m page_map s cnt → s ≡ i
      first_fit all = elim (Bool-cases (ltb s i)) [
        | inl lt ↦ absurd (none_before s (omega arith) (ltb→lt s i lt) all)
        | inr ge ↦ omega (arith, ltb→le s i ge)
      ]

  exhausted_loop :
      (f s : ℕ)
      → s < map_max
      → map_max ≤ s + f
      → ((k : ℕ) → k + cnt ≤ map_max → ¬ Free m page_map k cnt)
      → taken m page_map (map_max - 1) ≡ false
      → alloc_loop f m page_map map_max cnt s ≡ halted
  exhausted_loop zero s lt fuel no_fit last = absurd (omega arith)
  exhausted_loop (suc f) s lt fuel no_fit last = elim (Bool-cases (taken m page_map s)) [
    | inl used ↦
        used_step f s lt used
        ∙ exhausted_loop f (s + 1) (omega (arith, not_last m page_map map_max s last used))
            (omega arith) no_fit last
    | inr unused ↦ elim (run_cases m page_map (map_max - s) s) [
      | inl all ↦
          let short : map_max - s < cnt = too_short (map_max - s) (omega arith) all in
          end_step f s (map_max - s) (omega arith) short (omega arith) all
      | inr (zero, less, before, used) ↦ absurd (both (rw (add-zero s) at used) unused)
      | inr (suc t, less, before, used) ↦
          let short : suc t < cnt = too_short (suc t) (omega arith) before in
          skip_step f s (suc t) short (omega arith) before (omega arith) used
          ∙ exhausted_loop f (s + suc t + 1)
              (omega (arith, not_last m page_map map_max (s + suc t) last used)) (omega arith)
              no_fit last
    ]
  ]
    where
      too_short : (n : ℕ) → s + n ≤ map_max → Free m page_map s n → n < cnt
      too_short n fits all = elim (Bool-cases (ltb n cnt)) [
        | inl lt ↦ ltb→lt n cnt lt
        | inr ge ↦
            let le : cnt ≤ n = ltb→le n cnt ge in
            absurd (no_fit s (omega arith) (λ k lo hi. all k lo (omega arith)))
      ]

-- What stands in the map after a run from `i` on got the status `b`.
abbrev pub RunGets : (m m' : Mem) → (page_map i cnt : ℕ) → Bool → Type 0
RunGets m m' page_map i cnt b =
    (j : ℕ) → taken m' page_map j ≡ (if within i cnt j then b else taken m page_map j)

bitmap_alloc-run_status :
    (m : Mem) (page_map map_max cnt i : ℕ)
    → map_max ≤ 2 ^ 31
    → 0 < cnt
    → i + cnt ≤ map_max
    → Free m page_map i cnt
    → ((k : ℕ) → k < i → ¬ Free m page_map k cnt)
    → bitmap_alloc m page_map map_max cnt ≡ done (i, run_status cnt m page_map i true)
unfolding bitmap_alloc
bitmap_alloc-run_status m page_map map_max cnt i small some_places fit free none_before =
    alloc_loop_lem m page_map map_max cnt small some_places (suc map_max) 0 i (omega arith)
      (omega arith) fit free (λ k lo. none_before k)

within_bounds : (i n j : ℕ) → within i n j ≡ true → (i ≤ j) × (j < i + n)
within_bounds i n j h = ground arith

-- With no run of `cnt` free places in the map, and its last place free, `bitmap_alloc` of `cnt > 0` places halts
-- the machine instead of answering -1.
pub bitmap_alloc_exhausted :
    (m : Mem) (page_map map_max cnt : ℕ)
    → map_max ≤ 2 ^ 31
    → 0 < cnt
    → 0 < map_max
    → ((k : ℕ) → k + cnt ≤ map_max → ¬ Free m page_map k cnt)
    → taken m page_map (map_max - 1) ≡ false
    → bitmap_alloc m page_map map_max cnt ≡ halted
unfolding bitmap_alloc
bitmap_alloc_exhausted m page_map map_max cnt small some_places some_map no_fit last =
    exhausted_loop m page_map map_max cnt small some_places (suc map_max) 0 some_map (omega arith)
      no_fit last

-- On a map of at most 2 ^ 31 places `bitmap_alloc` of `cnt > 0` places takes the first run of that many free places and
-- changes no other place, and `bitmap_free` of that run succeeds and leaves every place as it was.
pub bitmap_free-bitmap_alloc :
    (m : Mem) (page_map map_max cnt i : ℕ)
    → IsByteMem m
    → map_max ≤ 2 ^ 31
    → 0 < cnt
    → i + cnt ≤ map_max
    → Free m page_map i cnt
    → ((k : ℕ) → k < i → ¬ Free m page_map k cnt)
    → (m' m'' : Mem) × (bitmap_alloc m page_map map_max cnt ≡ done (i, m'))
      × RunGets m m' page_map i cnt true
      × (bitmap_free m' page_map map_max i cnt ≡ done m'')
      × ((j : ℕ) → taken m'' page_map j ≡ taken m page_map j)
bitmap_free-bitmap_alloc m page_map map_max cnt i bytes small some_places fit free none_before = (
  run_status cnt m page_map i true,
  run_status cnt (run_status cnt m page_map i true) page_map i false,
  bitmap_alloc-run_status m page_map map_max cnt i small some_places fit free none_before,
  gets,
  bitmap_free_lem cnt (run_status cnt m page_map i true) page_map map_max i small fit bytes'
      (λ k lo hi. gets k ∙ rw (le→leb i k lo, lt→ltb k (i + cnt) hi)),
  λ j. taken-run_status cnt (run_status cnt m page_map i true) page_map i j false bytes' ∙ back j,
)
  where
    gets : RunGets m (run_status cnt m page_map i true) page_map i cnt true
    gets j = taken-run_status cnt m page_map i j true bytes

    bytes' : IsByteMem (run_status cnt m page_map i true)
    bytes' = run_status-IsByteMem cnt m page_map i true bytes

    back :
        (j : ℕ)
        → (if within i cnt j then false else taken (run_status cnt m page_map i true) page_map j)
          ≡ taken m page_map j
    back j = elim (Bool-cases (within i cnt j)) [
      | inl inside ↦
          rw inside (sym (free j (within_bounds i cnt j inside).0 (within_bounds i cnt j inside).1))
      | inr outside ↦ rw outside (gets j ∙ rw outside)
    ]
