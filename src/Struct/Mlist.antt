-- ===== src/Struct/Mlist.antt =====
-- lolibc/struct/mlist.c: doubly linked lists on the heap. A `struct mlist` is its address, with the head there and the
-- tail 8 bytes on; an element has `prev`, `next` and `data`, 8 bytes each. `mlist_print` only prints.
pub mod Queue
pub mod Pop
pub mod Push
pub mod Remove
pub mod Tests
use loos_lab.Base.{ℕ, zero, suc, ◌+◌, Bool, ◌==◌, if◌then◌else◌}
use loos_lab.Base.Run.{Run, ◌>>=◌, done, halted, out_of_fuel}
use loos_lab.Memory.{Mem}
use loos_lab.Memory.Words.{put64, get64}
use loos_lab.Mm.Memblock.{Kmem}
use loos_lab.Libc.Stdlib.Heap.{Heap, malloc, free}

abbrev pub mem_of : Heap → Mem
mem_of h = Kmem.mem (Heap.kmem h)

-- `*(uint64_t *)a = v`
abbrev pub store : Heap → (a v : ℕ) → Heap
store h a v = record h { kmem = record (Heap.kmem h) { mem = put64 (mem_of h) a v } }

abbrev pub head : Heap → ℕ → ℕ
head h list = get64 (mem_of h) list

abbrev pub tail : Heap → ℕ → ℕ
tail h list = get64 (mem_of h) (list + 8)

abbrev pub elem_prev : Heap → ℕ → ℕ
elem_prev h e = get64 (mem_of h) e

abbrev pub elem_next : Heap → ℕ → ℕ
elem_next h e = get64 (mem_of h) (e + 8)

abbrev pub elem_data : Heap → ℕ → ℕ
elem_data h e = get64 (mem_of h) (e + 16)

unfoldable pub mlist_init : Heap → Run (ℕ × Heap)
unfolding malloc
mlist_init h = do (list, h') ← malloc h 16; done (list, store (store h' list 0) (list + 8) 0)

unfoldable pub new_mlist_elem : Heap → (value : ℕ) → Run (ℕ × Heap)
new_mlist_elem h value = do
  (e, h') ← malloc h 24
  done (e, store (store (store h' e 0) (e + 8) 0) (e + 16) value)

-- `panic_on(!list, ...)` halts.
unfoldable pub mlist_is_empty : Heap → (list : ℕ) → Run Bool
mlist_is_empty h list = if list == 0 then halted else done (head h list == 0)

unfoldable pub mlist_push : Heap → (list value : ℕ) → Run Heap
mlist_push h list value = do
  (e, h₁) ← new_mlist_elem h value
  empty ← mlist_is_empty h₁ list
  let only = store (store h₁ (list + 8) e) list e
  let h₂ = store h₁ (e + 8) (head h₁ list)
  let h₃ = store h₂ (elem_next h₂ e) e
  done (if empty then only else store h₃ list e)

-- The end of `mlist_pop`: the list without its first element, which is freed.
unfoldable pub unlink_first : Heap → (list : ℕ) → Heap
unlink_first h list =
    if head h list == tail h list
    then store (store h (list + 8) 0) list 0
    else store h list (elem_next h (head h list))

unfoldable pub mlist_pop : Heap → (list : ℕ) → Run (ℕ × Heap)
unfolding mlist_is_empty
mlist_pop h list = do
  empty ← mlist_is_empty h list
  let e = head h list
  done (if empty then (0, h) else (elem_data h e, free (unlink_first h list) e))

unfoldable pub mlist_append : Heap → (list value : ℕ) → Run Heap
mlist_append h list value = do
  (e, h₁) ← new_mlist_elem h value
  empty ← mlist_is_empty h₁ list
  let only = store (store h₁ (list + 8) e) list e
  let h₂ = store h₁ e (tail h₁ list)
  let h₃ = store h₂ (elem_prev h₂ e + 8) e
  done (if empty then only else store h₃ (list + 8) e)

-- What `mlist_remove` does with the element that it found.
unfoldable pub remove_elem : Heap → (list e : ℕ) → Heap
unfolding free
remove_elem h list e =
    let h₁ = if e == head h list then store h list (elem_next h e) else h in
    let h₂ = if e == tail h₁ list then store h₁ (list + 8) (elem_prev h₁ e) else h₁ in free h₂ e

-- The loops run along `next` to NULL; `fuel` bounds their rounds. Without the value `mlist_remove` asserts false.
unfoldable pub remove_loop : (fuel : ℕ) → Heap → (list value e : ℕ) → Run Heap
unfolding remove_elem
remove_loop zero h list value e = out_of_fuel
remove_loop (suc n) h list value e =
    let rest = remove_loop n h list value (elem_next h e) in
    if e == 0 then halted else if elem_data h e == value then done (remove_elem h list e) else rest

unfoldable pub mlist_remove : (fuel : ℕ) → Heap → (list value : ℕ) → Run Heap
unfolding mlist_is_empty remove_loop
mlist_remove fuel h list value = do
  empty ← mlist_is_empty h list
  if empty then halted else remove_loop fuel h list value (head h list)

unfoldable pub mlist_find_loop : (fuel : ℕ) → Heap → (func : ℕ → Bool) → (e : ℕ) → Run ℕ
mlist_find_loop zero h func e = out_of_fuel
mlist_find_loop (suc n) h func e =
    let rest = mlist_find_loop n h func (elem_next h e) in
    if e == 0 then done 0 else if func (elem_data h e) then done (elem_data h e) else rest

unfoldable pub mlist_find : (fuel : ℕ) → Heap → (list : ℕ) → (func : ℕ → Bool) → Run ℕ
unfolding mlist_is_empty mlist_find_loop
mlist_find fuel h list func = do
  empty ← mlist_is_empty h list
  if empty then done 0 else mlist_find_loop fuel h func (head h list)
