-- ===== src/Struct/Bitmap/Bits.antt =====
-- One bit of a bitmap: what setting its status does to all the places. It follows lolibc/bits.h and the first two
-- functions of lolibc/struct/bitmap.c.

use loos_lab.Base.Int.{sign_extend}
use loos_lab.Base.{
  ℕ, zero, suc, ◌+◌, ◌/◌, ◌%◌, ◌^◌, ◌≤◌, ◌<◌, ◌≡◌, refl, sym, ap, ◌∙◌, inl, inr, Bool, true, false,
  not, arith, ◌==◌, if◌then◌else◌, lt→ltb, le→ltb, ==→eq, ==→ne, Bool-cases,
}
use loos_lab.Base.Run.{done, halted}
use loos_lab.Memory.{Mem, put}
use loos_lab.Struct.Bitmap.{get_bit, set_bit, bitmap_is_in_use, bitmap_set_status}

-- A test of all the places of a byte, or of all the bytes, that is run.
unfoldable pub every_place : (places : ℕ) → (test : ℕ → Bool) → Bool
every_place zero test = true
every_place (suc k) test = if test k then every_place k test else false

pub every_place-at :
    (places : ℕ) (test : ℕ → Bool) (x : ℕ)
    → every_place places test ≡ true
    → x < places
    → test x ≡ true
unfolding every_place
every_place-at zero test x passed below = absurd (omega arith)
every_place-at (suc k) test x passed below = elim (Bool-cases (test k)) [
  | inr fails ↦ cc (rw fails at passed)
  | inl here ↦ elim (Bool-cases (x == k)) [
    | inl last ↦ ap test (==→eq x k last) ∙ here
    | inr before ↦ every_place-at k test x (rw here at passed) (omega (arith, ==→ne x k before))
  ]
]

abbrev same : Bool → Bool → Bool
same true b = b
same false b = not b

same→eq : (a b : Bool) → same a b ≡ true → a ≡ b
same→eq true b h = sym h
same→eq false b h = ground arith

-- The byte that `bitmap_set_status` stores for place `l` of byte `x`, seen at place `k`.
abbrev bit_holds : Bool → (l k x : ℕ) → Bool
bit_holds status l k x =
    same (get_bit (set_bit x l status % 256) k) (if k == l then status else get_bit x k)

bit_table :
    (status : Bool)
    → every_place 8 (λ l. every_place 8 (λ k. every_place 256 (bit_holds status l k))) ≡ true
unfolding every_place get_bit set_bit
bit_table true = refl
bit_table false = refl

get_bit-set_bit :
    (status : Bool) (l k x : ℕ)
    → l < 8
    → k < 8
    → x < 256
    → get_bit (set_bit x l status % 256) k ≡ (if k == l then status else get_bit x k)
get_bit-set_bit status l k x hl hk hx = same→eq _ _ (
    every_place-at 256 (bit_holds status l k) x
      (every_place-at 8 (λ k'. every_place 256 (bit_holds status l k')) k
        (every_place-at 8 (λ l'. every_place 8 (λ k'. every_place 256 (bit_holds status l' k'))) l
          (bit_table status) hl)
        hk)
      hx)

-- A place of the map that is taken.
abbrev pub taken : Mem → (page_map place : ℕ) → Bool
taken m page_map place = get_bit (m (page_map + place / 8)) (place % 8)

abbrev pub IsByteMem : Mem → Type 0
IsByteMem m = (x : ℕ) → m x < 256

-- The memory after place `place` got the status.
unfoldable pub with_status : Mem → (page_map place : ℕ) → Bool → Mem
unfolding set_bit
with_status m page_map place status =
    let a = page_map + place / 8 in put m a (set_bit (m a) (place % 8) status % 256)

pub taken-with_status :
    (m : Mem) (page_map place j : ℕ) (status : Bool)
    → IsByteMem m
    → taken (with_status m page_map place status) page_map j
      ≡ (if j == place then status else taken m page_map j)
unfolding with_status put
taken-with_status m page_map place j status bytes =
    elim (Bool-cases (page_map + j / 8 == page_map + place / 8)) [
      | inl here ↦ rw here (
          ground (
            arith,
            get_bit-set_bit status (place % 8) (j % 8) (m (page_map + place / 8)) (omega arith)
                (omega arith) (bytes _),
            ==→eq (page_map + j / 8) (page_map + place / 8) here,
          ))
      | inr away ↦ let e : (j == place) ≡ false = ground arith in rw (away, e)
    ]

pub with_status-IsByteMem :
    (m : Mem) (page_map place : ℕ) (status : Bool)
    → IsByteMem m
    → IsByteMem (with_status m page_map place status)
unfolding with_status put
with_status-IsByteMem m page_map place status bytes x = ground (arith, bytes x)

pub sign_extend_lem : (i : ℕ) → i < 2 ^ 31 → sign_extend i ≡ i
unfolding sign_extend
sign_extend_lem i h = ground arith

module _ (m : Mem) (page_map map_max : ℕ) (small : map_max ≤ 2 ^ 31) where
  pub in_use_lem :
      (i : ℕ) → i < map_max → bitmap_is_in_use m page_map map_max i ≡ done (taken m page_map i)
  unfolding bitmap_is_in_use
  in_use_lem i h = rw (sign_extend_lem i (omega arith), lt→ltb i map_max h)

  -- The first place behind the map fails the assertion.
  pub in_use_end : bitmap_is_in_use m page_map map_max map_max ≡ halted
  unfolding bitmap_is_in_use sign_extend
  in_use_end = ground arith

  pub set_status_out :
      (i : ℕ) (status : Bool)
      → i < 2 ^ 31
      → map_max ≤ i
      → bitmap_set_status m page_map map_max i status ≡ halted
  unfolding bitmap_set_status
  set_status_out i status h out = rw (sign_extend_lem i h, le→ltb i map_max out)

  pub set_status_lem :
      (i : ℕ) (status : Bool)
      → i < map_max
      → bitmap_set_status m page_map map_max i status ≡ done (with_status m page_map i status)
  unfolding bitmap_set_status with_status
  set_status_lem i status h = rw (sign_extend_lem i (omega arith), lt→ltb i map_max h)
