-- ===== src/Struct/Bitmap.antt =====
-- lolibc/struct/bitmap.c, and the bits of lolibc/bits.h that it uses: a map of places, one bit each, in an array of
-- bytes. `page_map` is the address of the array. A place that is passed as an `int` and compared with a `size_t` is sign-extended. Places are below `map_max`, so sums of them do not wrap.
pub mod Bits
pub mod Runs
pub mod Alloc
pub mod One
pub mod Tests
use loos_lab.Base.Int.{sign_extend}
use loos_lab.Base.{
  ℕ, zero, suc, ◌+◌, ◌-◌, ◌*◌, ◌/◌, ◌%◌, ◌^◌, bit_and, bit_or, Bool, true, false, not, ltb, ◌==◌,
  if◌then◌else◌,
}
use loos_lab.Base.Run.{Run, ◌>>=◌, ◌>>◌, assert, done, out_of_fuel}
use loos_lab.Memory.{Mem, put}

unfoldable pub get_bit : (x l : ℕ) → Bool
get_bit x l = x / 2 ^ l % 2 == 1

-- `1u << l` has 32 bits.
unfoldable pub set_bit : (x l : ℕ) → (status : Bool) → ℕ
set_bit x l true = bit_or x (2 ^ l % 2 ^ 32)
set_bit x l false = bit_and x (2 ^ 32 - 1 - 2 ^ l % 2 ^ 32)

unfoldable pub get_bits_range : (x s len : ℕ) → ℕ
get_bits_range x s len = bit_and (x / 2 ^ s) ((2 ^ len + 2 ^ 64 - 1) % 2 ^ 64)

unfoldable pub bitmap_is_in_use : Mem → (page_map map_max index : ℕ) → Run Bool
unfolding get_bit sign_extend
bitmap_is_in_use m page_map map_max index = do
  assert (ltb (sign_extend index) map_max)
  done (get_bit (m (page_map + sign_extend index / 8)) (sign_extend index % 8))

unfoldable pub bitmap_set_status : Mem → (page_map map_max index : ℕ) → (status : Bool) → Run Mem
unfolding set_bit sign_extend
bitmap_set_status m page_map map_max index status = do
  assert (ltb (sign_extend index) map_max)
  let a = page_map + sign_extend index / 8
  done (put m a (set_bit (m a) (sign_extend index % 8) status % 256))

-- `while (data & 1u) { data = data >> 1; bit++; }` on a byte `x`, which ends within 8 rounds unless it is 0xFF.
unfoldable pub count_ones : (rounds x bit : ℕ) → ℕ
count_ones zero x bit = bit
count_ones (suc n) x bit =
    let rest = count_ones n (x / 2) (bit + 1) in if x % 2 == 1 then rest else bit

-- The loop of `bitmap_alloc_one` over the rounds left, at byte `i`.
unfoldable pub alloc_one_loop : (rounds : ℕ) → Mem → (page_map map_max i : ℕ) → Run (ℕ × Mem)
unfolding bitmap_set_status
alloc_one_loop zero m page_map map_max i = done (2 ^ 64 - 1, m)
alloc_one_loop (suc n) m page_map map_max i =
    let rest = alloc_one_loop n m page_map map_max (i + 1) in
    let place = 8 * i + count_ones 8 (m (page_map + i)) 0 in
    if m (page_map + i) == 0xFF
    then rest
    else do m' ← bitmap_set_status m page_map map_max place true; done (place, m')

unfoldable pub bitmap_alloc_one : Mem → (page_map map_max : ℕ) → Run (ℕ × Mem)
unfolding alloc_one_loop
bitmap_alloc_one m page_map map_max = alloc_one_loop map_max m page_map map_max 0

-- `for (j = 0; j < cnt; j++) if (bitmap_is_in_use(...)) break;` from `i + j` on, with `left` rounds of `cnt` left.
unfoldable pub free_run : (left : ℕ) → Mem → (page_map map_max i j : ℕ) → Run ℕ
unfolding bitmap_is_in_use
free_run zero m page_map map_max i j = done j
free_run (suc n) m page_map map_max i j =
    let rest = free_run n m page_map map_max i (j + 1) in
    do used ← bitmap_is_in_use m page_map map_max (i + j); if used then done j else rest

-- `n` places from `i` on get the status, in order.
unfoldable pub set_run : (n : ℕ) → Mem → (page_map map_max i : ℕ) → Run Mem
unfolding bitmap_set_status
set_run zero m page_map map_max i = done m
set_run (suc n) m page_map map_max i = do
  m' ← bitmap_set_status m page_map map_max i true
  set_run n m' page_map map_max (i + 1)

-- The loop of `bitmap_alloc`, at place `i`.
unfoldable pub alloc_loop : (fuel : ℕ) → Mem → (page_map map_max cnt i : ℕ) → Run (ℕ × Mem)
unfolding bitmap_is_in_use free_run set_run
alloc_loop zero m page_map map_max cnt i = out_of_fuel
alloc_loop (suc f) m page_map map_max cnt i =
    let on = λ (k : ℕ). alloc_loop f m page_map map_max cnt k in
    if not (ltb i map_max) then done (2 ^ 64 - 1, m) else do
      used ← bitmap_is_in_use m page_map map_max i
      if used then on (i + 1) else do
        j ← free_run cnt m page_map map_max i 0
        if ltb j cnt then on (i + j + 1) else do m' ← set_run j m page_map map_max i; done (i, m')

-- Every round goes on by a place, so one round more than places is enough.
unfoldable pub bitmap_alloc : Mem → (page_map map_max cnt : ℕ) → Run (ℕ × Mem)
unfolding alloc_loop
bitmap_alloc m page_map map_max cnt = alloc_loop (suc map_max) m page_map map_max cnt 0

-- The places from `index` on, `cnt` of them.
unfoldable pub bitmap_free : Mem → (page_map map_max index cnt : ℕ) → Run Mem
unfolding bitmap_is_in_use bitmap_set_status
bitmap_free m page_map map_max index zero = done m
bitmap_free m page_map map_max index (suc n) = do
  used ← bitmap_is_in_use m page_map map_max index
  assert used
  m' ← bitmap_set_status m page_map map_max index false
  bitmap_free m' page_map map_max (index + 1) n
