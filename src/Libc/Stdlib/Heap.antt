-- ===== src/Libc/Stdlib/Heap.antt =====
-- `malloc`, `free` and `calloc` of lolibc/stdlib.c. A chunk is its address: the link stands there, the size 8 bytes
-- on, the data 16 bytes on. NULL is 0. Sums of sizes wrap at 2 ^ 64.

use loos_lab.Base.{
  ℕ, zero, suc, ◌+◌, ◌-◌, ◌*◌, ◌/◌, ◌%◌, ◌^◌, Bool, true, false, not, ◌&&◌, ◌||◌, List, ltb, leb,
  ◌==◌, if◌then◌else◌, get_or, set,
}
use loos_lab.Base.Int.{pos}
use loos_lab.Base.Run.{Run, ◌>>=◌, done, halted}
use loos_lab.Memory.Words.{put64, get64}
use loos_lab.Mm.Layout.{pg_size}
use loos_lab.Mm.Memblock.{Kmem, kmalloc}
use loos_lab.Libc.Block.{memset}

-- The variables of the heap, and the page allocator with the memory.
pub record Heap : Type 0 where
  pub kmem : Kmem
  pub fastbin : List ℕ
  pub unsorted_bin : ℕ
  pub p_start : ℕ
  pub p_end : ℕ

-- `chunk_info_size`
abbrev pub chunk_info_size : ℕ
chunk_info_size = 16

abbrev pub chunk_next : Heap → ℕ → ℕ
chunk_next h chunk = get64 (Kmem.mem (Heap.kmem h)) chunk

abbrev pub chunk_size : Heap → ℕ → ℕ
chunk_size h chunk = get64 (Kmem.mem (Heap.kmem h)) (chunk + 8)

abbrev pub set_next : Heap → (chunk v : ℕ) → Heap
set_next h chunk v = record h {
  kmem = record (Heap.kmem h) { mem = put64 (Kmem.mem (Heap.kmem h)) chunk v };
}

abbrev pub set_size : Heap → (chunk v : ℕ) → Heap
set_size h chunk v = record h {
  kmem = record (Heap.kmem h) { mem = put64 (Kmem.mem (Heap.kmem h)) (chunk + 8) v };
}

unfoldable pub apply_alloc : Heap → (size : ℕ) → Run (ℕ × Heap)
unfolding kmalloc
apply_alloc h size =
    if ltb pg_size size
    then halted
    else if leb (Heap.p_end h) (Heap.p_start h + size)
    then (do
      (page, k) ← kmalloc (Heap.kmem h) (pos pg_size)
      done (page, record h { kmem = k; p_start = page + size; p_end = page + pg_size }))
    else done (Heap.p_start h, record h { p_start = Heap.p_start h + size })

-- `chunk->size >= size && chunk->size < size + 128`
abbrev pub fits : Heap → (size chunk : ℕ) → Bool
fits h size chunk =
    leb size (chunk_size h chunk) && ltb (chunk_size h chunk) ((size + 128) % 2 ^ 64)

-- The search of the unsorted bin over the rounds left: the last `chunk`, and whether the loop was left by `break`.
unfoldable pub search_unsorted : (rounds : ℕ) → Heap → (size chunk : ℕ) → ℕ × Bool
search_unsorted zero h size chunk = (chunk, false)
search_unsorted (suc n) h size chunk =
    let rest = search_unsorted n h size (chunk_next h chunk) in
    if chunk == 0 then (0, false) else if fits h size chunk then (chunk, true) else rest

-- The end of `malloc`.
unfoldable pub give : Heap → (size chunk : ℕ) → ℕ × Heap
give h size chunk = if chunk == 0 then (0, h) else (chunk + chunk_info_size, set_size h chunk size)

unfoldable pub malloc : Heap → (size : ℕ) → Run (ℕ × Heap)
unfolding apply_alloc search_unsorted give
malloc h size =
    let index = size / 15 in
    let fix_size = (size + 15) / 16 * 16 in
    let (chunk, left) = search_unsorted 100 h size (Heap.unsorted_bin h) in
    let h₁ = if left then record h { unsorted_bin = chunk_next h (Heap.unsorted_bin h) } else h in
    let first = get_or (Heap.fastbin h) index 0 in
    let fresh = λ (t : Heap) (n : ℕ).
      apply_alloc t ((n + chunk_info_size) % 2 ^ 64) >>= λ r. done (give r.1 size r.0) in
    if leb 160 size
    then (if chunk == 0 || not (fits h size chunk)
        then fresh h₁ size
        else done (give h₁ size chunk))
    else if first == 0
    then fresh h fix_size
    else done
        (give (record h { fastbin = set (Heap.fastbin h) index (chunk_next h first) }) size first)

unfoldable pub free : Heap → (ptr : ℕ) → Heap
free h ptr =
    let chunk = (ptr + 2 ^ 64 - chunk_info_size) % 2 ^ 64 in
    let index = chunk_size h chunk / 15 in
    let h₁ = set_next h chunk (Heap.unsorted_bin h) in
    let h₂ = set_next h chunk (get_or (Heap.fastbin h) index 0) in
    if leb 160 (chunk_size h chunk)
    then record h₁ { unsorted_bin = chunk }
    else record h₂ { fastbin = set (Heap.fastbin h) index chunk }

unfoldable pub calloc : Heap → (nitems size : ℕ) → Run (ℕ × Heap)
unfolding malloc memset
calloc h nitems size = do
  (victim, h') ← malloc h (nitems * size % 2 ^ 64)
  let k = Heap.kmem h'
  let cleared = (memset (Kmem.mem k) victim 0 (nitems * size % 2 ^ 64)).0
  done (victim, if victim == 0 then h' else record h' { kmem = record k { mem = cleared } })
