-- ===== src/Libc/Stdlib/Reuse.antt =====
-- What `malloc` of lolibc/stdlib.c does with chunks that were freed.

use loos_lab.Base.{
  ℕ, suc, ◌+◌, ◌-◌, ◌/◌, ◌%◌, ◌^◌, ◌≤◌, ◌<◌, ◌≡◌, refl, sym, ◌∙◌, ◌≢◌, ◌⊎◌, true, false, ◌&&◌,
  arith, ltb, leb, ne→==, length, get_or, set, get_or-set_self, set-set, set-get_or,
}
use loos_lab.Base.Run.{done}
use loos_lab.Memory.Words.{put64, put64_off, get64-put64_self}
use loos_lab.Mm.Memblock.{Kmem}
use loos_lab.Libc.Stdlib.Heap.{
  Heap, chunk_next, chunk_size, set_next, set_size, fits, search_unsorted, give, malloc, free,
}

not_large : (size : ℕ) → size < 160 → leb 160 size ≡ false
not_large size h = ground arith

-- `free` of a chunk of a small size puts it at the head of its bin.
free_small :
    (h : Heap) (c i : ℕ)
    → c + 16 < 2 ^ 64
    → chunk_size h c < 160
    → i ≡ chunk_size h c / 15
    → free h (c + 16)
      ≡ record (set_next h c (get_or (Heap.fastbin h) i 0)) { fastbin = set (Heap.fastbin h) i c }
unfolding free
free_small h c i small lt e =
    let same : (c + 16 + 2 ^ 64 - 16) % 2 ^ 64 ≡ c = omega arith in
    rw (same, not_large (chunk_size h c) lt, sym e) refl

malloc_small :
    (h : Heap) (size i first : ℕ)
    → size < 160
    → i ≡ size / 15
    → first ≡ get_or (Heap.fastbin h) i 0
    → first ≢ 0
    → malloc h size
      ≡ done (
        first + 16,
        set_size (record h { fastbin = set (Heap.fastbin h) i (chunk_next h first) }) first size,
      )
unfolding malloc give
malloc_small h size i first lt e f ne = rw (not_large size lt, sym e, sym f, ne→== first 0 ne) refl

-- A chunk that `free` took is handed out by the next `malloc` of its bin, with the bins as before; only the link and
-- the size of the chunk are written. The size asked for may be another than that of the chunk.
pub malloc-free :
    (h : Heap) (c size : ℕ)
    → c ≢ 0
    → c + 16 < 2 ^ 64
    → chunk_size h c < 160
    → size < 160
    → size / 15 ≡ chunk_size h c / 15
    → size / 15 < length (Heap.fastbin h)
    → get_or (Heap.fastbin h) (size / 15) 0 < 2 ^ 64
    → (h' : Heap) × (malloc (free h (c + 16)) size ≡ done (c + 16, h'))
      × (Heap.fastbin h' ≡ Heap.fastbin h)
      × (Heap.unsorted_bin h' ≡ Heap.unsorted_bin h)
      × (chunk_size h' c ≡ size)
      × ((x : ℕ) → (x < c) ⊎ (c + 16 ≤ x) → Kmem.mem (Heap.kmem h') x ≡ Kmem.mem (Heap.kmem h) x)
malloc-free h c size ne small lt lt' class inside head =
    let i = size / 15 in
    let first = get_or (Heap.fastbin h) i 0 in
    let mem = Kmem.mem (Heap.kmem h) in
    let freed : Heap = record (set_next h c first) { fastbin = set (Heap.fastbin h) i c } in
    let h' : Heap =
      set_size (record freed { fastbin = set (Heap.fastbin freed) i (chunk_next freed c) }) c
        size in
    (
      h',
      rw (free_small h c i small lt class) (
          malloc_small freed size i c lt' refl (sym (get_or-set_self (Heap.fastbin h) i c 0 inside))
            ne),
      rw (get64-put64_self mem c first head)
          (set-set (Heap.fastbin h) i c first ∙ set-get_or (Heap.fastbin h) i 0),
      refl,
      get64-put64_self (put64 mem c first) (c + 8) size (omega arith),
      λ x o.
          put64_off (put64 mem c first) (c + 8) size x (omega arith)
          ∙ put64_off mem c first x (omega arith),
    )

search_second :
    (n : ℕ) (h : Heap) (size a : ℕ)
    → a ≢ 0
    → fits h size a ≡ false
    → chunk_next h a ≢ 0
    → fits h size (chunk_next h a) ≡ true
    → search_unsorted (suc (suc n)) h size a ≡ (chunk_next h a, true)
unfolding search_unsorted
search_second n h size a ne miss ne' hit =
    rw (ne→== a 0 ne, miss, ne→== (chunk_next h a) 0 ne', hit) refl

search_first :
    (n : ℕ) (h : Heap) (size a : ℕ)
    → a ≢ 0
    → fits h size a ≡ true
    → search_unsorted (suc n) h size a ≡ (a, true)
unfolding search_unsorted
search_first n h size a ne hit = rw (ne→== a 0 ne, hit) refl

large : (size : ℕ) → 160 ≤ size → leb 160 size ≡ true
large size h = ground arith

malloc_hit :
    (h : Heap) (size c : ℕ)
    → 160 ≤ size
    → search_unsorted 100 h size (Heap.unsorted_bin h) ≡ (c, true)
    → c ≢ 0
    → fits h size c ≡ true
    → malloc h size
      ≡ done
          (c + 16, set_size (record h { unsorted_bin = chunk_next h (Heap.unsorted_bin h) }) c size)
unfolding malloc give
malloc_hit h size c le found ne hit = rw (large size le, found, ne→== c 0 ne, hit) refl

size_fits :
    (size : ℕ) → size + 128 < 2 ^ 64 → (leb size size && ltb size ((size + 128) % 2 ^ 64)) ≡ true
size_fits size h = ground arith

-- If the first chunk of the unsorted bin does not fit a size from 160 on and the second one does, `malloc` hands out
-- the second but takes off the first, and the next `malloc` of that size hands out the same chunk again.
pub malloc_twice :
    (h : Heap) (size : ℕ)
    → 160 ≤ size
    → size + 128 < 2 ^ 64
    → Heap.unsorted_bin h ≢ 0
    → fits h size (Heap.unsorted_bin h) ≡ false
    → chunk_next h (Heap.unsorted_bin h) ≢ 0
    → fits h size (chunk_next h (Heap.unsorted_bin h)) ≡ true
    → (p : ℕ) × (h' : Heap) × (h'' : Heap) × (malloc h size ≡ done (p, h'))
      × (malloc h' size ≡ done (p, h''))
malloc_twice h size le lt ne miss ne' hit =
    let a = Heap.unsorted_bin h in
    let c = chunk_next h a in
    let h' : Heap = set_size (record h { unsorted_bin = c }) c size in
    let stored : chunk_size h' c ≡ size =
      get64-put64_self (Kmem.mem (Heap.kmem h)) (c + 8) size (omega arith) in
    let again : fits h' size c ≡ true = rw stored (size_fits size lt) in
    (
      c + 16,
      h',
      set_size (record h' { unsorted_bin = chunk_next h' c }) c size,
      malloc_hit h size c le (search_second 98 h size a ne miss ne' hit) ne' hit,
      malloc_hit h' size c le (search_first 99 h' size c ne' again) ne' again,
    )
