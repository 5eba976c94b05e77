-- ===== src/Struct/Mlist/Tests.antt =====
-- A list of three values of lolibc/struct/mlist.c, and a chunk in the bin.

use loos_lab.Base.{
  ℕ, ◌+◌, ◌≡◌, refl, inl, inr, List, [], ◌∷◌, ◌++◌, arith, ◌==◌, if◌then◌else◌, replicate,
}
use loos_lab.Base.Run.{done}
use loos_lab.Memory.{Mem}
use loos_lab.Memory.Words.{get64}
use loos_lab.Libc.Stdlib.Heap.{Heap, free}
use loos_lab.Struct.Mlist.{mem_of, mlist_push, mlist_pop, mlist_remove}
use loos_lab.Struct.Mlist.Queue.{IsMlist}
use loos_lab.Struct.Mlist.Push.{mlist_pop-mlist_push, from_bin}
use loos_lab.Struct.Mlist.Remove.{mlist_remove_keeps}

-- The list at 16, its elements at 64, 104 and 144.
abbrev memory : Mem
memory x =
    if x == 16
    then 64
    else if x == 24
    then 144
    else if x == 72
    then 104
    else if x == 80
    then 7
    else if x == 104
    then 64
    else if x == 112
    then 144
    else if x == 120
    then 8
    else if x == 144
    then 104
    else if x == 160
    then 9
    else 0

abbrev heap : Heap
heap = record {
  kmem = record { mem = memory; freelist = 0 };
  fastbin = 0 ∷ 200 ∷ replicate 9 0;
  unsorted_bin = 0;
  p_start = 0;
  p_end = 0;
}

abbrev values : List (ℕ × ℕ)
values = (64, 7) ∷ (104, 8) ∷ (144, 9) ∷ []

values-IsMlist : IsMlist memory 16 values
unfolding get64
values-IsMlist = record {
  not_null = omega arith;
  chain = (refl, refl, (refl, refl, (refl, refl, refl)));
  last = refl;
  links = (refl, (refl, tt));
  separate = (
    (omega arith, omega arith, inr (omega arith)),
    (inl (omega arith), (inl (omega arith), tt)),
    (
      (omega arith, omega arith, inr (omega arith)),
      (inl (omega arith), tt),
      ((omega arith, omega arith, inr (omega arith)), tt, tt),
    ),
  );
}

mlist_pop-mlist_push_example :
    (h' h'' : Heap) × (mlist_push heap 16 5 ≡ done h')
    × IsMlist (mem_of h') 16 ((200 + 16, 5) ∷ values)
    × (mlist_pop h' 16 ≡ done (5, h''))
    × IsMlist (mem_of h'') 16 values
mlist_pop-mlist_push_example =
    mlist_pop-mlist_push heap 16 200 5 values (from_bin refl (omega arith))
      (omega arith, omega arith, inr (omega arith)) (omega arith)
      (inr (omega arith), (inr (omega arith), (inr (omega arith), tt))) values-IsMlist

mlist_remove_keeps_example :
    (mlist_remove 3 heap 16 8 ≡ done (free heap 104))
    × IsMlist (mem_of (free heap 104)) 16 (((64, 7) ∷ []) ++ ((104, 8) ∷ ((144, 9) ∷ [])))
mlist_remove_keeps_example =
    mlist_remove_keeps 3 heap 16 8 104 (64, 7) (144, 9) [] [] values-IsMlist
      ((λ e. omega arith), tt) (omega arith)
