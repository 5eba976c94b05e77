-- ===== src/Struct/Mlist/Pop.antt =====
-- `mlist_pop` of lolibc/struct/mlist.c takes the first value of a list.

use loos_lab.Memory.{Mem}
use loos_lab.Base.{
  ℕ, ◌+◌, ◌-◌, ◌/◌, ◌%◌, ◌^◌, ◌≤◌, ◌<◌, ◌≡◌, refl, sym, ◌∙◌, ◌≢◌, inl, inr, List, [], ◌∷◌, arith,
  leb, eq→==, ne→==, Bool-cases, get_or,
}
use loos_lab.Base.Run.{done}
use loos_lab.Memory.Words.{put64, get64, get64-put64_self, get64-put64_ne}
use loos_lab.Libc.Stdlib.Heap.{Heap, chunk_size, free}
use loos_lab.Struct.Mlist.{mem_of, head, elem_data, mlist_is_empty, unlink_first, mlist_pop}
use loos_lab.Struct.Mlist.Queue.{
  IsMlist, Chain-store, Chain-start, Backs-store, Clear-list, Misses-list, last-ne-first,
  IsMlist-store,
}

-- `free` of a chunk writes only its link.
pub free_store :
    (h : Heap) (e : ℕ)
    → 16 ≤ e
    → e < 2 ^ 64
    → (v : ℕ) × (mem_of (free h e) ≡ put64 (mem_of h) (e - 16) v)
unfolding free
free_store h e lo hi =
    let chunk : (e + 2 ^ 64 - 16) % 2 ^ 64 ≡ e - 16 = omega arith in
    elim (Bool-cases (leb 160 (chunk_size h (e - 16)))) [
      | inl big ↦ (h.unsorted_bin, rw (chunk, big) refl)
      | inr small ↦ (get_or h.fastbin (chunk_size h (e - 16) / 15) 0, rw (chunk, small) refl)
    ]

emptied : (m : Mem) (list : ℕ) → list ≢ 0 → IsMlist (put64 (put64 m (list + 8) 0) list 0) list []
emptied m list not_null = record {
  not_null = not_null;
  chain = get64-put64_self (put64 m (list + 8) 0) list 0 (omega arith);
  last =
      get64-put64_ne (put64 m (list + 8) 0) list (list + 8) 0 (omega arith)
      ∙ get64-put64_self m (list + 8) 0 (omega arith);
  links = tt;
  separate = tt;
}

advanced :
    (m : Mem) (list e value : ℕ) (x : ℕ × ℕ) (xs : List (ℕ × ℕ))
    → IsMlist m list ((e, value) ∷ (x ∷ xs))
    → IsMlist (put64 m list (get64 m (e + 8))) list (x ∷ xs)
advanced m list e value x xs q =
    let rest = q.chain.2 in
    let apart = q.separate.2 in
    record {
      not_null = q.not_null;
      chain =
          rw
            (get64-put64_self m list (get64 m (e + 8))
              (Chain-start m list (get64 m (e + 8)) (x ∷ xs) rest apart))
            (Chain-store m (get64 m (e + 8)) list (get64 m (e + 8)) (x ∷ xs)
              (Misses-list list list (x ∷ xs) (omega arith) (omega arith) apart) rest);
      last = get64-put64_ne m list (list + 8) (get64 m (e + 8)) (omega arith) ∙ q.last;
      links =
          Backs-store m x.0 list (get64 m (e + 8)) xs
            (Clear-list list list xs (omega arith) (omega arith) apart.2) q.links.1;
      separate = apart;
    }

unlink_first-IsMlist :
    (h : Heap) (list e value : ℕ) (xs : List (ℕ × ℕ))
    → IsMlist (mem_of h) list ((e, value) ∷ xs)
    → IsMlist (mem_of (unlink_first h list)) list xs
unfolding unlink_first
unlink_first-IsMlist h list e value [] q =
    rw (eq→== (get64 (mem_of h) list) (get64 (mem_of h) (list + 8)) (q.chain.0 ∙ sym q.last))
      (emptied (mem_of h) list q.not_null)
unlink_first-IsMlist h list e value (x ∷ xs) q =
    let differ : get64 (mem_of h) list ≢ get64 (mem_of h) (list + 8) = λ same.
      last-ne-first list e value x xs q.separate.1 q.separate.2 q.separate.0.0
        (sym q.last ∙ sym same ∙ q.chain.0) in
    rw (ne→== (get64 (mem_of h) list) (get64 (mem_of h) (list + 8)) differ, q.chain.0)
      (advanced (mem_of h) list e value x xs q)

popped :
    (h : Heap) (list e value : ℕ)
    → list ≢ 0
    → e ≢ 0
    → head h list ≡ e
    → elem_data h e ≡ value
    → mlist_pop h list ≡ done (value, free (unlink_first h list) e)
unfolding mlist_pop mlist_is_empty
popped h list e value not_null some_elem first here =
    rw (ne→== list 0 not_null, first, ne→== e 0 some_elem, here) refl

-- `mlist_pop` of a list that is not empty answers its first value and leaves the rest.
pub mlist_pop-IsMlist :
    (h : Heap) (list e value : ℕ) (xs : List (ℕ × ℕ))
    → IsMlist (mem_of h) list ((e, value) ∷ xs)
    → (h' : Heap) × (mlist_pop h list ≡ done (value, h')) × IsMlist (mem_of h') list xs
mlist_pop-IsMlist h list e value xs q =
    let (chunk, apart, rest) = q.separate in
    let (v, eq) = free_store (unlink_first h list) e chunk.0 chunk.1 in
    (
      free (unlink_first h list) e,
      popped h list e value q.not_null (omega (arith, chunk.0)) q.chain.0 q.chain.1,
      rw eq (
          IsMlist-store (mem_of (unlink_first h list)) list e (e - 16) v xs chunk apart
            (omega arith) (omega arith) (unlink_first-IsMlist h list e value xs q)),
    )
