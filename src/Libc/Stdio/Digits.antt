-- ===== src/Libc/Stdio/Digits.antt =====
-- The digits of lolibc/stdio.c one by one: each stands in the table, and its place is found again.

use loos_lab.Base.{
  ℕ, zero, suc, ◌+◌, ◌<◌, ◌≡◌, refl, ap, ◌∙◌, ◌≢◌, Bool, true, ◌&&◌, List, [], ◌∷◌, arith, ltb,
  length, get_or, has, Distinct,
}
use loos_lab.Base.Int.{pos, negsuc}
use loos_lab.Libc.Stdio.{itoa_table, index_loop, get_itoa_table_index, to_upper}

index_loop-get_or :
    (xs : List ℕ) (d i n : ℕ)
    → Distinct xs
    → d < length xs
    → d < n
    → index_loop (get_or xs d 0) i xs n ≡ pos (i + d)
index_loop-get_or [] d i n dis lt ln = absurd (omega arith)
index_loop-get_or (x ∷ xs) d i zero dis lt ln = absurd (omega arith)
index_loop-get_or (x ∷ xs) zero i (suc n) dis lt ln = ground arith
index_loop-get_or (x ∷ xs) (suc d) i (suc n) dis lt ln = ground (
  arith,
  dis.0,
  has-get_or xs d (omega arith),
  index_loop-get_or xs d (suc i) n dis.1 (omega arith) (omega arith),
)
  where
    has-get_or : (ys : List ℕ) (j : ℕ) → j < length ys → has (get_or ys j 0) ys ≡ true
    has-get_or [] j h = absurd (omega arith)
    has-get_or (y ∷ ys) zero h = ground arith
    has-get_or (y ∷ ys) (suc j) h = ground (arith, has-get_or ys j (omega arith))

-- The two radices of the code.
pub data IsRadix : ℕ → Type 0 where
  ten : IsRadix 10
  sixteen : IsRadix 16

-- The character of a digit.
abbrev pub digit : ℕ → ℕ
digit d = get_or itoa_table d 0

-- Every entry is a printed character other than the small letters.
below : List ℕ → Bool
below [] = true
below (x ∷ xs) = ltb 0 x && ltb x 97 && below xs

below-get_or :
    (xs : List ℕ) (d : ℕ)
    → below xs ≡ true
    → d < length xs
    → (get_or xs d 0 < 97) × (get_or xs d 0 ≢ 0)
unfolding below
below-get_or [] d h lt = absurd (omega arith)
below-get_or (x ∷ xs) zero h lt = (ground arith, ground arith)
below-get_or (x ∷ xs) (suc d) h lt = below-get_or xs d (ground arith) (omega arith)

to_upper_id : (c : ℕ) → c < 97 → to_upper c ≡ c
unfolding to_upper
to_upper_id c h = ground arith

pub digit_ne : (d : ℕ) → d < 16 → digit d ≢ 0
unfolding below
digit_ne d h = (below-get_or itoa_table d refl h).1

to_upper-digit : (d : ℕ) → d < 16 → to_upper (digit d) ≡ digit d
unfolding below
to_upper-digit d h = to_upper_id (digit d) (below-get_or itoa_table d refl h).0

table-Distinct : Distinct itoa_table
table-Distinct = (
  refl,
  (
    refl,
    (
      refl,
      (
        refl,
        (
          refl,
          (
            refl,
            (refl, (refl, (refl, (refl, (refl, (refl, (refl, (refl, (refl, (refl, tt)))))))))),
          ),
        ),
      ),
    ),
  ),
)

index_loop-digit : (n d : ℕ) → d < n → d < 16 → index_loop (digit d) 0 itoa_table n ≡ pos d
index_loop-digit n d h lt =
    index_loop-get_or itoa_table d 0 n table-Distinct lt h ∙ ap pos (omega arith)

-- The digit that a character stands for is found again.
pub get_itoa_table_index-digit :
    {r : ℕ} (R : IsRadix r) (d : ℕ) → d < r → get_itoa_table_index (to_upper (digit d)) r ≡ pos d
unfolding get_itoa_table_index
get_itoa_table_index-digit ten d h =
    rw (to_upper-digit d (omega arith)) (index_loop-digit 10 d h (omega arith))
get_itoa_table_index-digit sixteen d h = rw (to_upper-digit d h) (index_loop-digit 16 d h h)

-- A terminator is no digit.
pub get_itoa_table_index_end :
    {r : ℕ} (R : IsRadix r) → get_itoa_table_index (to_upper 0) r ≡ negsuc 0
unfolding get_itoa_table_index to_upper
get_itoa_table_index_end ten = refl
get_itoa_table_index_end sixteen = refl
