-- ===== src/Struct/Bitmap/One.antt =====
-- The place that `bitmap_alloc_one` of lolibc/struct/bitmap.c takes.

use loos_lab.Base.{
  ℕ, zero, suc, ◌+◌, ◌*◌, ◌/◌, ◌%◌, ◌^◌, ◌≤◌, ◌<◌, ◌≡◌, refl, sym, ap, ◌∙◌, inl, inr, Bool, true,
  false, not, ◌&&◌, arith, ltb, ◌==◌, if◌then◌else◌, ltb→lt, ltb→le, ==→eq, ==→ne, Bool-cases,
}
use loos_lab.Base.Run.{◌>>=◌, done, halted}
use loos_lab.Memory.{Mem}
use loos_lab.Struct.Bitmap.{
  get_bit, bitmap_set_status, count_ones, alloc_one_loop, bitmap_alloc_one,
}
use loos_lab.Struct.Bitmap.Bits.{
  every_place, every_place-at, taken, IsByteMem, with_status, set_status_out, set_status_lem,
}
use native.Mathlib.Nat.{zero-add}

every_place-all : (n : ℕ) (p : ℕ → Bool) → ((x : ℕ) → x < n → p x ≡ true) → every_place n p ≡ true
unfolding every_place
every_place-all zero p h = refl
every_place-all (suc n) p h =
    rw (h n (omega arith)) (every_place-all n p (λ x lt. h x (omega arith)))

-- The bits of `x` below `r` are set, bit `r` is not.
abbrev first_clear : (x r : ℕ) → Bool
first_clear x r = every_place r (get_bit x) && not (get_bit x r)

abbrev counts : (x r : ℕ) → Bool
counts x r = if first_clear x r then (count_ones 8 x 0 == r) && not (x == 0xFF) else true

count_table : every_place 256 (λ x. every_place 8 (counts x)) ≡ true
unfolding every_place get_bit count_ones
count_table = refl

full_table : every_place 256 (λ x. if every_place 8 (get_bit x) then x == 0xFF else true) ≡ true
unfolding every_place get_bit
full_table = refl

full_byte : (x : ℕ) → x < 256 → ((r : ℕ) → r < 8 → get_bit x r ≡ true) → (x == 0xFF) ≡ true
full_byte x h bits =
    rw (every_place-all 8 (get_bit x) bits) at (
      every_place-at 256 (λ y. if every_place 8 (get_bit y) then y == 0xFF else true) x full_table
        h)

count_byte :
    (x r : ℕ)
    → x < 256
    → r < 8
    → ((b : ℕ) → b < r → get_bit x b ≡ true)
    → get_bit x r ≡ false
    → (count_ones 8 x 0 ≡ r) × ((x == 0xFF) ≡ false)
count_byte x r hx hr below clear = read (
    rw (every_place-all r (get_bit x) below, clear) at
      (every_place-at 8 (counts x) r
        (every_place-at 256 (λ y. every_place 8 (counts y)) x count_table hx) hr))
  where
    read :
        (count_ones 8 x 0 == r) && not (x == 0xFF) ≡ true
        → (count_ones 8 x 0 ≡ r) × ((x == 0xFF) ≡ false)
    read e = ground arith

module _ (m : Mem) (page_map map_max k : ℕ) (bytes : IsByteMem m) (small : 8 * map_max ≤ 2 ^ 31)
    (free : taken m page_map k ≡ false) (full : (j : ℕ) → j < k → taken m page_map j ≡ true)
    (in_bytes : k / 8 < map_max) where
  here : (r : ℕ) → r < 8 → (i : ℕ) → taken m page_map (8 * i + r) ≡ get_bit (m (page_map + i)) r
  here r lt i =
      let q : (8 * i + r) / 8 ≡ i = omega arith in
      let w : (8 * i + r) % 8 ≡ r = omega arith in rw (q, w)

  set_k :
      ◌>>=◌ {B = ℕ × Mem} (bitmap_set_status m page_map map_max k true) (λ m'. done (k, m'))
      ≡ (if ltb k map_max then done (k, with_status m page_map k true) else halted)
  set_k = elim (Bool-cases (ltb k map_max)) [
    | inl inside ↦
        rw
          (set_status_lem m page_map map_max (omega arith) k true (ltb→lt k map_max inside), inside)
    | inr outside ↦ rw (
      set_status_out m page_map map_max (omega arith) k true (omega arith)
          (ltb→le k map_max outside),
      outside,
    )
  ]

  one_loop :
      (n i : ℕ)
      → i ≤ k / 8
      → k / 8 < i + n
      → i + n ≡ map_max
      → alloc_one_loop n m page_map map_max i
        ≡ (if ltb k map_max then done (k, with_status m page_map k true) else halted)
  unfolding alloc_one_loop
  one_loop zero i le lt ends = absurd (omega arith)
  one_loop (suc n) i le lt ends = elim (Bool-cases (i == k / 8)) [
    | inr before ↦
        rw
          (full_byte (m (page_map + i)) (bytes _)
            (λ r hr. sym (here r hr i) ∙ full (8 * i + r) (omega (arith, ==→ne i (k / 8) before))))
          (one_loop n (i + 1) (omega (arith, ==→ne i (k / 8) before)) (omega arith) (omega arith))
    | inl at_k ↦
        let counted : (count_ones 8 (m (page_map + i)) 0 ≡ k % 8)
            × ((m (page_map + i) == 0xFF) ≡ false) =
          count_byte (m (page_map + i)) (k % 8) (bytes _) (omega arith)
            (λ r hr.
              sym (here r (omega arith) i) ∙ full (8 * i + r) (omega (arith, ==→eq i (k / 8) at_k)))
            (sym (here (k % 8) (omega arith) i)
              ∙ ap (taken m page_map) (omega (arith, ==→eq i (k / 8) at_k))
              ∙ free) in
        let place : 8 * i + k % 8 ≡ k = omega (arith, ==→eq i (k / 8) at_k) in
        rw (counted.1, counted.0, place) set_k
  ]

-- If the first free place of a map of bytes lies in the first `map_max` bytes, `bitmap_alloc_one` takes it if it is below
-- `map_max`, and halts the machine otherwise.
pub bitmap_alloc_one_lem :
    (m : Mem) (page_map map_max k : ℕ)
    → IsByteMem m
    → 8 * map_max ≤ 2 ^ 31
    → k / 8 < map_max
    → taken m page_map k ≡ false
    → ((j : ℕ) → j < k → taken m page_map j ≡ true)
    → bitmap_alloc_one m page_map map_max
      ≡ (if ltb k map_max then done (k, with_status m page_map k true) else halted)
unfolding bitmap_alloc_one
bitmap_alloc_one_lem m page_map map_max k bytes small lt free full =
    one_loop m page_map map_max k bytes small free full lt map_max 0 (omega arith) (omega arith)
      (zero-add map_max)
