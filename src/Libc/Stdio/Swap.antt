-- ===== src/Libc/Stdio/Swap.antt =====
-- The loop of `_uitoa` in lolibc/stdio.c that turns the digits around.

use native.Mathlib.Nat.{add-zero}
use loos_lab.Base.{
  ℕ, zero, suc, ◌+◌, ◌-◌, ◌*◌, ◌≤◌, ◌<◌, ◌≡◌, refl, ap, ◌∙◌, ◌≢◌, ◌⊎◌, inl, inr, List, [], ◌∷◌,
  arith, ltb, Bool-cases, length, get_or,
}
use loos_lab.Memory.{Mem, put}
use loos_lab.Libc.Stdio.{swap_loop, put_list}

pub put_list_off :
    (m : Mem) (a : ℕ) (xs : List ℕ) (x : ℕ)
    → (x < a) ⊎ (a + length xs ≤ x)
    → put_list m a xs x ≡ m x
unfolding put
put_list_off m a [] x h = refl
put_list_off m a (y ∷ ys) x h = ground (arith, put_list_off (put m a y) (a + 1) ys x (omega arith))

pub put_list_at :
    (m : Mem) (a : ℕ) (xs : List ℕ) (i : ℕ)
    → i < length xs
    → put_list m a xs (a + i) ≡ get_or xs i 0
unfolding put
put_list_at m a [] i h = absurd (omega arith)
put_list_at m a (y ∷ ys) zero h =
    ap (put_list (put m a y) (a + 1) ys) (add-zero a)
    ∙ put_list_off (put m a y) (a + 1) ys a (omega arith)
    ∙ ground arith
put_list_at m a (y ∷ ys) (suc i) h =
    ap (put_list (put m a y) (a + 1) ys) (omega arith)
    ∙ put_list_at (put m a y) (a + 1) ys i (omega arith)

-- `m` with the bytes at `i` and `j` swapped.
abbrev swapped : Mem → (i j : ℕ) → Mem
swapped m i j = put (put m i (m j)) j (m i)

swapped_ne : (m : Mem) (i j x : ℕ) → x ≢ i → x ≢ j → swapped m i j x ≡ m x
unfolding put
swapped_ne m i j x hi hj = ground arith

swapped_left : (m : Mem) (i j : ℕ) → i < j → swapped m i j i ≡ m j
unfolding put
swapped_left m i j h = ground arith

swapped_right : (m : Mem) (i j : ℕ) → swapped m i j j ≡ m i
unfolding put
swapped_right m i j = ground arith

pub swap_loop_off :
    (n : ℕ) (m : Mem) (pre last x : ℕ) → (x < pre) ⊎ (last < x) → swap_loop n m pre last x ≡ m x
unfolding swap_loop
swap_loop_off zero m pre last x h = refl
swap_loop_off (suc n) m pre last x h = elim (Bool-cases (ltb pre last)) [
  | inl e ↦ rw e (
      swap_loop_off n (swapped m pre last) (pre + 1) (last - 1) x (omega arith)
      ∙ swapped_ne m pre last x (ground arith) (ground arith))
  | inr e ↦ rw e refl
]

mirror : (i j x : ℕ) → (x ≡ i) ⊎ ((x ≡ j) ⊎ ((x ≢ i) × (x ≢ j)))
mirror i j x = ground arith

-- The swaps turn the bytes from `pre` to `last` around.
pub swap_loop_at :
    (n : ℕ) (m : Mem) (pre last x y : ℕ)
    → last < pre + 2 * n
    → pre ≤ x
    → x ≤ last
    → x + y ≡ pre + last
    → swap_loop n m pre last x ≡ m y
unfolding swap_loop
swap_loop_at zero m pre last x y h lo hi s = absurd (omega arith)
swap_loop_at (suc n) m pre last x y h lo hi s = elim (Bool-cases (ltb pre last)) [
  | inl e ↦ rw e (elim (mirror pre last x) [
    | inl p ↦
        swap_loop_off n (swapped m pre last) (pre + 1) (last - 1) x (omega arith)
        ∙ ap (swapped m pre last) p
        ∙ swapped_left m pre last (ground arith)
        ∙ ap m (omega arith)
    | inr (inl p) ↦
        swap_loop_off n (swapped m pre last) (pre + 1) (last - 1) x (omega arith)
        ∙ ap (swapped m pre last) p
        ∙ swapped_right m pre last
        ∙ ap m (omega arith)
    | inr (inr p) ↦
        swap_loop_at n (swapped m pre last) (pre + 1) (last - 1) x y (omega arith) (omega arith)
          (omega arith) (ground arith)
        ∙ swapped_ne m pre last y (omega arith) (omega arith)
  ])
  | inr e ↦ rw e (ap m (ground arith))
]
