-- ===== src/Mm/Memblock.antt =====
-- mm/memblock.c and the allocation half of mm/mm.c: a free list threaded through the free pages.
pub mod Laws
pub mod Range
use loos_lab.Base.{ℕ, zero, suc, ◌+◌, ◌/◌, ◌%◌, leb, ◌==◌, if◌then◌else◌}
use loos_lab.Base.Int.{ℤ, ltb_ℤ, pos}
use loos_lab.Base.Run.{Run, done, halted}
use loos_lab.Memory.{Mem}
use loos_lab.Memory.Words.{put64, get64}
use loos_lab.Libc.Block.{memset}
use loos_lab.Mm.Layout.{pg_size, pg_round_up, phys_top}

-- The memory and `kmem.freelist`, 0 for NULL.
pub record Kmem : Type 0 where
  pub mem : Mem
  pub freelist : ℕ

-- `r->next` is the word at the start of the page.
unfoldable pub kfree_page_memblock : Kmem → ℕ → Kmem
unfolding put64
kfree_page_memblock k pa = record {
  mem = put64 (memset k.mem pa 1 pg_size).0 pa k.freelist;
  freelist = pa;
}

unfoldable pub kalloc_page_memblock : Kmem → Run (ℕ × Kmem)
unfolding get64
kalloc_page_memblock k =
    if k.freelist == 0
    then halted
    else done (
      k.freelist,
      record { mem = (memset k.mem k.freelist 5 pg_size).0; freelist = get64 k.mem k.freelist },
    )

-- The loop of `freerange`, over the number of rounds left; a round runs only while a whole page is
-- left below `pa_end`.
free_loop : ℕ → Kmem → (p pa_end : ℕ) → Kmem
unfolding kfree_page_memblock
free_loop zero k p pa_end = k
free_loop (suc n) k p pa_end =
    let rest = free_loop n (kfree_page_memblock k p) (p + pg_size) pa_end in
    if leb (p + pg_size) pa_end then rest else k

-- There are at most `pa_end / PGSIZE` pages below `pa_end`.
unfoldable pub freerange : Kmem → (pa_start pa_end : ℕ) → Kmem
unfolding free_loop pg_round_up
freerange k pa_start pa_end = free_loop (pa_end / pg_size) k (pg_round_up pa_start) pa_end

-- `kernel_end` is a symbol of the linker script.
unfoldable pub kinit_memblock : (kernel_end : ℕ) → Kmem → Kmem
unfolding freerange
kinit_memblock kernel_end k = freerange k kernel_end phys_top

-- `size` is an `int`; only the bound is checked, and a whole page is handed out.
unfoldable pub kmalloc : Kmem → ℤ → Run (ℕ × Kmem)
unfolding kalloc_page_memblock
kmalloc k size = if ltb_ℤ (pos pg_size) size then halted else kalloc_page_memblock k

unfoldable pub kfree : Kmem → ℕ → Run Kmem
unfolding kfree_page_memblock
kfree k paddr = if paddr % pg_size == 0 then done (kfree_page_memblock k paddr) else halted
