-- ===== src/Libc/Stdlib/Tests.antt =====
-- Concrete runs of lolibc/stdlib.c.
use loos_lab.Base.{
  ℕ, ◌+◌, ◌≤◌, ◌<◌, ◌≡◌, refl, ◌⊎◌, [], ◌∷◌, arith, ◌==◌, if◌then◌else◌, get_or, replicate,
}
use loos_lab.Base.Run.{done}
use loos_lab.Memory.{Mem}
use loos_lab.Memory.Words.{get64}
use loos_lab.Mm.Memblock.{Kmem}
use loos_lab.Libc.Stdlib.Heap.{Heap, chunk_size, malloc, free}
use loos_lab.Libc.Stdlib.Reuse.{malloc-free}

-- The chunk at 1000 has size 15. The unsorted bin holds the chunk at 2000, of size 200, and then that at 3000,
-- of size 400.
abbrev memory : Mem
memory x =
    if x == 1008
    then 15
    else if x == 2000
    then 184
    else if x == 2001
    then 11
    else if x == 2008
    then 200
    else if x == 3008
    then 144
    else if x == 3009
    then 1
    else 0

abbrev heap : Heap
heap = record {
  kmem = record { mem = memory; freelist = 0 };
  fastbin = replicate 11 0;
  unsorted_bin = 2000;
  p_start = 0;
  p_end = 0;
}

-- The chunk of size 15 is handed out for 29 bytes.
malloc-free_example :
    (h' : Heap) × (malloc (free heap (1000 + 16)) 29 ≡ done (1000 + 16, h'))
    × (Heap.fastbin h' ≡ Heap.fastbin heap)
    × (Heap.unsorted_bin h' ≡ Heap.unsorted_bin heap)
    × (chunk_size h' 1000 ≡ 29)
    × ((x : ℕ)
        → (x < 1000) ⊎ (1000 + 16 ≤ x)
        → Kmem.mem (Heap.kmem h') x ≡ Kmem.mem (Heap.kmem heap) x)
unfolding get64
malloc-free_example =
    malloc-free heap 1000 29 (omega arith) (omega arith) (omega arith) (omega arith) refl
      (omega arith) (omega arith)

-- "  42" at address 1
abbrev answer : Mem
answer a = get_or (0 ∷ 32 ∷ 32 ∷ 52 ∷ 50 ∷ []) a 0
