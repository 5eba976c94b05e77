-- ===== src/Mm/PageTable.antt =====
-- mm/n_vm.c: three-level page tables, on the memory and the free list of the page allocator.
-- A table is a page of 2048 words; an entry is the word `table + 8 * index`.
pub mod Entries
pub mod Grow
pub mod Descend
pub mod Extend
pub mod Lookup
pub mod Space
pub mod Store
pub mod Map
pub mod Frame
pub mod CopyIn
pub mod StrChunk
pub mod CopyStr
pub mod Deliver
pub mod CopyOut
pub mod Tests
use loos_lab.Base.{
  ℕ, zero, suc, ◌+◌, ◌-◌, ◌*◌, ◌/◌, ◌%◌, ◌^◌, min, bit_or, Bool, true, false, ◌||◌, leb, ◌==◌,
  if◌then◌else◌,
}
use loos_lab.Base.Int.{ℤ, pos, negsuc}
use loos_lab.Base.Run.{Run, ◌>>=◌, done, halted, out_of_fuel}
use loos_lab.Memory.{Mem, put}
use loos_lab.Memory.Words.{put64, get64}
use loos_lab.Mm.Layout.{pg_size, pg_round_down, pa2va, pte2pa, pte_flags, px, max_va}
use loos_lab.Mm.Memblock.{Kmem, kmalloc}
use loos_lab.Libc.Block.{memset, memmove}

-- `pagetable[index]`
abbrev pub entry : Mem → (table index : ℕ) → ℕ
entry m table index = get64 m (table + 8 * index)

-- `pagetable[index] = v`
abbrev pub set_entry : Kmem → (table index v : ℕ) → Kmem
set_entry k table index v = record k { mem = put64 k.mem (table + 8 * index) v }

-- `kmalloc(PGSIZE)` and the `memset` to zero that follows each such call.
unfoldable pub zeroed_page : Kmem → Run (ℕ × Kmem)
zeroed_page k = do
  (page, k') ← kmalloc k (pos pg_size)
  done (page, record k' { mem = (memset k'.mem page 0 pg_size).0 })

-- A round of the loop of `__map_single_page`: the next table, allocated if there is none. The entry
-- is read again after the write.
unfoldable pub new_table : Kmem → (table index : ℕ) → Run (ℕ × Kmem)
unfolding zeroed_page
new_table k table index = do
  (page, k') ← zeroed_page k
  let k'' = set_entry k' table index page
  done (entry k''.mem table index, k'')

unfoldable pub descend : Kmem → (table index : ℕ) → Run (ℕ × Kmem)
unfolding new_table
descend k table index =
    if entry k.mem table index == 0
    then new_table k table index
    else done (entry k.mem table index, k)

unfoldable pub map_single_page : Kmem → (pagetable va pa perm : ℕ) → Run Kmem
map_single_page k pagetable va pa perm = do
  (middle, k₁) ← descend k pagetable (px 2 va)
  (last, k₂) ← descend k₁ middle (px 1 va)
  let flags = pte_flags (entry k₂.mem last (px 0 va))
  done (set_entry k₂ last (px 0 va) (bit_or (bit_or (pte2pa pa) flags) perm))

-- The branch of `va_to_pte_pointer` that makes a missing table.
unfoldable pub make_table : Kmem → (table index : ℕ) → Run (ℕ × Kmem)
make_table k table index = do
  (page, k') ← kmalloc k (pos pg_size)
  let k'' = record k' { mem = (memset k'.mem page 0 pg_size).0 }
  if page == 0
      then done (0, k')
      else done (page, set_entry k'' table index (bit_or (pte2pa page) 1))

-- A round of the loop of `va_to_pte_pointer`; a table of 0 stands for `return 0`.
unfoldable pub walk_step : Kmem → (table index : ℕ) → (alloc : Bool) → Run (ℕ × Kmem)
unfolding make_table
walk_step k table index alloc =
    if entry k.mem table index == 0
    then (if alloc then make_table k table index else done (0, k))
    else done (pa2va (pte2pa (entry k.mem table index)), k)

-- The answer is the address of the entry for `va`, or 0.
unfoldable pub va_to_pte_pointer : Kmem → (pagetable va : ℕ) → (alloc : Bool) → Run (ℕ × Kmem)
va_to_pte_pointer k pagetable va alloc = if leb max_va va then halted else do
  (middle, k₁) ← walk_step k (pa2va pagetable) (px 2 va) alloc
  if middle == 0 then done (0, k₁) else do
    (last, k₂) ← walk_step k₁ middle (px 1 va) alloc
    if last == 0 then done (0, k₂) else done (last + 8 * px 0 va, k₂)

unfoldable pub va_to_pa : Kmem → (pagetable va : ℕ) → Run ℕ
va_to_pa k pagetable va = if leb max_va (va - va % pg_size) then done 0 else do
  (pte, k') ← va_to_pte_pointer k pagetable (va - va % pg_size) false
  if pte == 0 || get64 k'.mem pte % 2 == 0
      then done 0
      else done ((pte2pa (get64 k'.mem pte) + va % pg_size) % 2 ^ 64)

-- The loop of `__map_pages`, over the rounds left.
unfoldable pub map_loop : ℕ → Kmem → (pagetable vac va_end pa_map perm : ℕ) → Run Kmem
map_loop zero k pagetable vac va_end pa_map perm = out_of_fuel
map_loop (suc n) k pagetable vac va_end pa_map perm =
    let rest = λ (k' : Kmem).
      map_loop n k' pagetable ((vac + pg_size) % 2 ^ 64) va_end ((pa_map + pg_size) % 2 ^ 64)
        perm in
    if leb vac va_end then map_single_page k pagetable vac pa_map perm >>= rest else done k

unfoldable pub map_pages : Kmem → (pagetable va size pa perm : ℕ) → Run Kmem
map_pages k pagetable va size pa perm =
    let va_end = pg_round_down ((va + size + 2 ^ 64 - 1) % 2 ^ 64) in
    map_loop (va_end / pg_size + 2) k pagetable (pg_round_down va) va_end (pg_round_down pa) perm

unfoldable pub pgtbl_create : Kmem → Run (ℕ × Kmem)
pgtbl_create k = zeroed_page k

-- The copy loops, over the rounds left: `n` bytes go to or from the page of the current address. The
-- answer is the result of the C function, 0 or -1.
unfoldable pub copy_to_loop : ℕ → Kmem → (pagetable dstva src len : ℕ) → Run (ℤ × Kmem)
copy_to_loop zero k pagetable dstva src len = out_of_fuel
copy_to_loop (suc f) k pagetable dstva src len =
    let va0 = pg_round_down dstva in
    let n = min (pg_size - (dstva - va0)) len in
    let rest = λ (m : Mem).
      copy_to_loop f (record k { mem = m }) pagetable (va0 + pg_size) (src + n) (len - n) in
    if len == 0 then done (pos 0, k) else do
      pa0 ← va_to_pa k pagetable va0
      if pa0 == 0
          then done (negsuc 0, k)
          else rest (memmove k.mem (pa2va (pa0 + (dstva - va0))) src n).0

-- A round handles at least one byte, so `len` rounds and the last test are enough.
unfoldable pub copy_to_va : Kmem → (pagetable dstva src len : ℕ) → Run (ℤ × Kmem)
copy_to_va k pagetable dstva src len = copy_to_loop (len + 1) k pagetable dstva src len

unfoldable pub copy_from_loop : ℕ → Kmem → (pagetable dst srcva len : ℕ) → Run (ℤ × Kmem)
copy_from_loop zero k pagetable dst srcva len = out_of_fuel
copy_from_loop (suc f) k pagetable dst srcva len =
    let va0 = pg_round_down srcva in
    let n = min (pg_size - (srcva - va0)) len in
    let rest = λ (m : Mem).
      copy_from_loop f (record k { mem = m }) pagetable (dst + n) (va0 + pg_size) (len - n) in
    if len == 0 then done (pos 0, k) else do
      pa0 ← va_to_pa k pagetable va0
      if pa0 == 0
          then done (negsuc 0, k)
          else rest (memmove k.mem dst (pa2va (pa0 + (srcva - va0))) n).0

unfoldable pub copy_from_va : Kmem → (pagetable dst srcva len : ℕ) → Run (ℤ × Kmem)
copy_from_va k pagetable dst srcva len = copy_from_loop (len + 1) k pagetable dst srcva len

-- The inner loop of `copy_from_va_str` over the `n` bytes of a page: whether it met the terminator, the memory, `dst`
-- and `max`.
unfoldable pub str_chunk : (n : ℕ) → Mem → (p dst max : ℕ) → Bool × Mem × ℕ × ℕ
str_chunk zero m p dst max = (false, m, dst, max)
str_chunk (suc n) m p dst max =
    let rest = str_chunk n (put m dst (m p)) (p + 1) (dst + 1) (max - 1) in
    if m p == 0 then (true, put m dst 0, dst, max) else rest

unfoldable pub copy_str_loop : ℕ → Kmem → (pagetable dst srcva max : ℕ) → Run (ℤ × Kmem)
copy_str_loop zero k pagetable dst srcva max = out_of_fuel
copy_str_loop (suc f) k pagetable dst srcva max =
    let va0 = pg_round_down srcva in
    let n = min (pg_size - (srcva - va0)) max in
    let rest = λ (m : Mem) (dst' max' : ℕ).
      copy_str_loop f (record k { mem = m }) pagetable dst' (va0 + pg_size) max' in
    if max == 0 then done (negsuc 0, k) else do
      pa0 ← va_to_pa k pagetable va0
      let (got_null, m, dst', max') = str_chunk n k.mem (pa2va (pa0 + (srcva - va0))) dst max
      if pa0 == 0
          then done (negsuc 0, k)
          else if got_null
          then done (pos 0, record k { mem = m })
          else rest m dst' max'

unfoldable pub copy_from_va_str : Kmem → (pagetable dst srcva max : ℕ) → Run (ℤ × Kmem)
copy_from_va_str k pagetable dst srcva max = copy_str_loop (max + 1) k pagetable dst srcva max
