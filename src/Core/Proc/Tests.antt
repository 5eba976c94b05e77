-- ===== src/Core/Proc/Tests.antt =====
-- A concrete run of `proc_alloc` of core/proc.c, on the table that the kernel starts with.

use loos_lab.Base.{
  ℕ, ◌<◌, ◌≡◌, refl, ap, ◌⊎◌, true, [], ◌∷◌, arith, replicate, length-replicate, get_or-replicate,
}
use loos_lab.Base.Run.{done, halted}
use loos_lab.Mm.Memblock.{kfree_page_memblock}
use loos_lab.Mm.Memblock.Laws.{IsKmem, kfree_page_memblock-IsKmem}
use loos_lab.Mm.Tests.{page₁, page₂, two_pages, two_pages-IsKmem}
use loos_lab.Libc.Stdlib.Heap.{Heap}
use loos_lab.Core.Proc.{TaskStruct, Procs, no_process, process, proc_alloc}
use loos_lab.Core.Proc.Alloc.{IsProcs, Allocated, proc_alloc-Allocated}

abbrev page₃ : ℕ
page₃ = 0x900000000000c000

abbrev start : Procs
start = record {
  heap = record {
    kmem = kfree_page_memblock two_pages page₃;
    fastbin = replicate 11 0;
    unsorted_bin = 0;
    p_start = 0;
    p_end = 0;
  };
  proc = replicate 64 no_process;
  last_pid = 0;
}

start-IsKmem : IsKmem (Heap.kmem (Procs.heap start)) (page₃ ∷ (page₁ ∷ (page₂ ∷ [])))
start-IsKmem =
    (kfree_page_memblock-IsKmem two_pages page₃ (page₁ ∷ (page₂ ∷ [])) two_pages-IsKmem
      (record { aligned = refl; not_null = omega arith; fits = omega arith }) refl).0

start-IsProcs : IsProcs start
start-IsProcs = record {
  size = length-replicate 64 no_process;
  handed_out =
      λ j u. ground (arith, u, ap (λ p. TaskStruct.used p) (get_or-replicate 64 j no_process));
}

proc_alloc-Allocated_example :
    ((proc_alloc start ≡ halted) × ((j : ℕ) → j < 64 → TaskStruct.used (process start j) ≡ true))
    ⊎ ((i : ℕ) × (t' : Procs) × (proc_alloc start ≡ done (i, t')) × Allocated start t' i)
proc_alloc-Allocated_example =
    proc_alloc-Allocated start start-IsProcs (omega arith) page₃ page₁ page₂ [] start-IsKmem
