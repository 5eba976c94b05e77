-- ===== src/Struct/Mlist/Push.antt =====
-- `mlist_push` of lolibc/struct/mlist.c puts a value in front of a list.

use loos_lab.Struct.Mlist.Pop.{mlist_pop-IsMlist}
use loos_lab.Base.{
  ℕ, ◌+◌, ◌-◌, ◌^◌, ◌≤◌, ◌<◌, ◌≡◌, refl, sym, ap, ◌∙◌, ◌≢◌, false, List, [], ◌∷◌, arith, leb, ne→==,
  get_or, set,
}
use loos_lab.Base.Run.{done}
use loos_lab.Memory.{Mem}
use loos_lab.Memory.Words.{put64, get64, get64-put64_self, get64-put64_ne}
use loos_lab.Libc.Stdlib.Heap.{Heap, chunk_next, set_size, apply_alloc, fits, give, malloc}
use loos_lab.Struct.Mlist.{
  mem_of, store, head, elem_next, elem_data, new_mlist_elem, mlist_is_empty, mlist_push, mlist_pop,
}
use loos_lab.Struct.Mlist.Queue.{
  AllApart, IsChunk, IsMlist, Misses, Chain-store, Backs-store, Clear-list, Clear-chunk,
  Misses-list, Misses-chunk, IsMlist-store,
}

-- `malloc` of an element takes the chunk `c`: the first of its bin, or else the next of the current page.
pub data Takes (h : Heap) (c : ℕ) : Type 0 where
  from_bin : get_or h.fastbin 1 0 ≡ c → c ≢ 0 → Takes h c
  from_page : get_or h.fastbin 1 0 ≡ 0 → h.p_start ≡ c → c ≢ 0 → c + 48 < h.p_end → Takes h c

malloc_page :
    (h : Heap)
    → get_or h.fastbin 1 0 ≡ 0
    → h.p_start ≢ 0
    → leb h.p_end (h.p_start + 48) ≡ false
    → malloc h 24
      ≡ done (h.p_start + 16, set_size (record h { p_start = h.p_start + 48 }) h.p_start 24)
unfolding malloc give apply_alloc
malloc_page h none_first some_page fits = rw (none_first, fits, ne→== h.p_start 0 some_page) refl

malloc_elem :
    (h : Heap) (c : ℕ)
    → Takes h c
    → (h' : Heap) × (malloc h 24 ≡ done (c + 16, h')) × (mem_of h' ≡ put64 (mem_of h) (c + 8) 24)
unfolding malloc give apply_alloc
malloc_elem h c (from_bin first some_chunk) = (
  set_size (record h { fastbin = set h.fastbin 1 (chunk_next h c) }) c 24,
  rw (first, ne→== c 0 some_chunk) refl,
  refl,
)
malloc_elem h c (from_page none_first start some_chunk fits) = (
  set_size (record h { p_start = h.p_start + 48 }) c 24,
  malloc_page h none_first (λ e. some_chunk (sym start ∙ e)) (ground (arith, start, fits))
      ∙ ap (λ (p : ℕ). done (p + 16, set_size (record h { p_start = h.p_start + 48 }) p 24)) start,
  refl,
)

-- An element is linked into an empty list,
pushed_empty :
    (m : Mem) (list e value : ℕ)
    → IsChunk list e
    → get64 m (e + 8) ≡ 0
    → get64 m (e + 16) ≡ value
    → IsMlist m list []
    → IsMlist (put64 (put64 m (list + 8) e) list e) list ((e, value) ∷ [])
pushed_empty m list e value chunk next here q =
    let m' = put64 m (list + 8) e in
    record {
      not_null = q.not_null;
      chain = (
        get64-put64_self m' list e chunk.1,
        get64-put64_ne m' list (e + 16) e (omega (arith, chunk))
            ∙ get64-put64_ne m (list + 8) (e + 16) e (omega (arith, chunk))
            ∙ here,
        get64-put64_ne m' list (e + 8) e (omega (arith, chunk))
            ∙ get64-put64_ne m (list + 8) (e + 8) e (omega (arith, chunk))
            ∙ next,
      );
      last =
          get64-put64_ne m' list (list + 8) e (omega arith)
          ∙ get64-put64_self m (list + 8) e chunk.1;
      links = tt;
      separate = (chunk, tt, tt);
    }

-- and in front of others.
pushed_more :
    (m : Mem) (list e value n d : ℕ) (xs : List (ℕ × ℕ))
    → IsChunk list e
    → AllApart e ((n, d) ∷ xs)
    → get64 m (e + 16) ≡ value
    → IsMlist m list ((n, d) ∷ xs)
    → IsMlist (put64 (put64 (put64 m (e + 8) n) n e) list e) list ((e, value) ∷ (n, d) ∷ xs)
pushed_more m list e value n d xs chunk apart here q =
    let m₁ = put64 m (e + 8) n in
    let m₂ = put64 m₁ n e in
    let all : List (ℕ × ℕ) = (n, d) ∷ xs in
    let to_n = Misses-chunk list e (e + 8) all (omega arith) (omega arith) apart q.separate in
    let own : Misses n all = (
      omega (arith, q.separate.0),
      Misses-chunk list n n xs (omega arith) (omega (arith, q.separate.0)) q.separate.1
          q.separate.2,
    ) in
    let at_list = Misses-list list list all (omega arith) (omega arith) q.separate in
    record {
      not_null = q.not_null;
      chain = (
        get64-put64_self m₂ list e chunk.1,
        get64-put64_ne m₂ list (e + 16) e (omega (arith, chunk))
            ∙ get64-put64_ne m₁ n (e + 16) e (omega (arith, chunk, apart.0, q.separate.0))
            ∙ get64-put64_ne m (e + 8) (e + 16) n (omega arith)
            ∙ here,
        rw
            (get64-put64_ne m₂ list (e + 8) e (omega (arith, chunk))
              ∙ get64-put64_ne m₁ n (e + 8) e (omega (arith, chunk, apart.0, q.separate.0))
              ∙ get64-put64_self m (e + 8) n q.separate.0.1)
            (Chain-store m₂ n list e all at_list (
              Chain-store m₁ n n e all own
                (Chain-store m n (e + 8) n all to_n (rw q.chain.0 at q.chain)))),
      );
      last =
          get64-put64_ne m₂ list (list + 8) e (omega arith)
          ∙ get64-put64_ne m₁ n (list + 8) e (omega (arith, q.separate.0))
          ∙ get64-put64_ne m (e + 8) (list + 8) n (omega (arith, chunk))
          ∙ q.last;
      links = (
        get64-put64_ne m₂ list n e (omega (arith, q.separate.0)) ∙ get64-put64_self m₁ n e chunk.1,
        Backs-store m₂ n list e xs
            (Clear-list list list xs (omega arith) (omega arith) q.separate.2)
            (Backs-store m₁ n n e xs
              (Clear-chunk list n n xs (omega arith) (omega (arith, q.separate.0)) q.separate.1
                q.separate.2)
              (Backs-store m n (e + 8) n xs
                (Clear-chunk list e (e + 8) xs (omega arith) (omega arith) apart.1 q.separate.2)
                q.links)),
      );
      separate = (chunk, apart, q.separate);
    }

module _ (h : Heap) (list c value : ℕ) (takes : Takes h c) (chunk : IsChunk list (c + 16))
    (bound : value < 2 ^ 64) where
  -- The element that `new_mlist_elem` makes.
  new_elem :
      (xs : List (ℕ × ℕ))
      → AllApart (c + 16) xs
      → IsMlist (mem_of h) list xs
      → (h₁ : Heap) × (new_mlist_elem h value ≡ done (c + 16, h₁))
        × IsMlist (mem_of h₁) list xs
        × (elem_next h₁ (c + 16) ≡ 0)
        × (elem_data h₁ (c + 16) ≡ value)
  unfolding new_mlist_elem
  new_elem xs apart q =
      let e = c + 16 in
      let (h₀, eq, mem) = malloc_elem h c takes in
      let keep =
        λ (m : Mem) (a v : ℕ) (lo : e - 16 ≤ a) (hi : a + 8 ≤ e - 16 + 40) (is : IsMlist m list xs).
          IsMlist-store m list e a v xs chunk apart lo hi is in
      let q₀ : IsMlist (mem_of h₀) list xs =
        rw mem (keep (mem_of h) (c + 8) 24 (omega arith) (omega arith) q) in
      let m₁ = put64 (mem_of h₀) e 0 in
      let m₂ = put64 m₁ (e + 8) 0 in
      (
        store (store (store h₀ e 0) (e + 8) 0) (e + 16) value,
        rw eq refl,
        keep m₂ (e + 16) value (omega arith) (omega arith) (
            keep m₁ (e + 8) 0 (omega arith) (omega arith)
              (keep (mem_of h₀) e 0 (omega arith) (omega arith) q₀)),
        get64-put64_ne m₂ (e + 16) (e + 8) value (omega arith)
            ∙ get64-put64_self m₁ (e + 8) 0 (omega arith),
        get64-put64_self m₂ (e + 16) value bound,
      )

-- The two ends of `mlist_push`.
module _ (h h₁ : Heap) (list value e : ℕ) (made : new_mlist_elem h value ≡ done (e, h₁))
    (not_null : list ≢ 0) where
  push_empty :
      head h₁ list ≡ 0 → mlist_push h list value ≡ done (store (store h₁ (list + 8) e) list e)
  unfolding mlist_push mlist_is_empty
  push_empty first = rw (made, ne→== list 0 not_null, first) refl

  push_front :
      (n : ℕ)
      → n ≢ 0
      → n < 2 ^ 64
      → head h₁ list ≡ n
      → mlist_push h list value ≡ done (store (store (store h₁ (e + 8) n) n e) list e)
  unfolding mlist_push mlist_is_empty
  push_front n some_elem bound first =
      rw
        (
          made,
          ne→== list 0 not_null,
          first,
          ne→== n 0 some_elem,
          get64-put64_self (mem_of h₁) (e + 8) n bound,
        )
        refl

-- With an element at hand in the bin or in the current page, `mlist_push` puts the value in front of the list, in that
-- element.
pub mlist_push-IsMlist :
    (h : Heap) (list c value : ℕ) (xs : List (ℕ × ℕ))
    → Takes h c
    → IsChunk list (c + 16)
    → value < 2 ^ 64
    → AllApart (c + 16) xs
    → IsMlist (mem_of h) list xs
    → (h' : Heap) × (mlist_push h list value ≡ done h')
      × IsMlist (mem_of h') list ((c + 16, value) ∷ xs)
mlist_push-IsMlist h list c value [] takes chunk bound apart q =
    let (h₁, made, q₁, next, here) = new_elem h list c value takes chunk bound [] apart q in
    (
      store (store h₁ (list + 8) (c + 16)) list (c + 16),
      push_empty h h₁ list value (c + 16) made q.not_null q₁.chain,
      pushed_empty (mem_of h₁) list (c + 16) value chunk next here q₁,
    )
mlist_push-IsMlist h list c value ((n, d) ∷ xs) takes chunk bound apart q =
    let (h₁, made, q₁, next, here) =
      new_elem h list c value takes chunk bound ((n, d) ∷ xs) apart q in
    (
      store (store (store h₁ (c + 16 + 8) n) n (c + 16)) list (c + 16),
      push_front h h₁ list value (c + 16) made q.not_null n (omega (arith, q.separate.0))
          q.separate.0.1 q₁.chain.0,
      pushed_more (mem_of h₁) list (c + 16) value n d xs chunk apart here q₁,
    )

-- With an element at hand in the bin of its size or in the current page, apart from the list and its elements,
-- `mlist_push` puts the value in front of the list, and `mlist_pop` after that answers the value and leaves a list of the same elements and values. In all these lists
-- `next` leads from each element to the one behind it and `prev` back; nothing is said of the `prev` of the first one.
pub mlist_pop-mlist_push :
    (h : Heap) (list c value : ℕ) (xs : List (ℕ × ℕ))
    → Takes h c
    → IsChunk list (c + 16)
    → value < 2 ^ 64
    → AllApart (c + 16) xs
    → IsMlist (mem_of h) list xs
    → (h' h'' : Heap) × (mlist_push h list value ≡ done h')
      × IsMlist (mem_of h') list ((c + 16, value) ∷ xs)
      × (mlist_pop h' list ≡ done (value, h''))
      × IsMlist (mem_of h'') list xs
mlist_pop-mlist_push h list c value xs takes chunk bound apart q =
    let (h', eq, pushed) = mlist_push-IsMlist h list c value xs takes chunk bound apart q in
    let (h'', eq', popped) = mlist_pop-IsMlist h' list (c + 16) value xs pushed in
    (h', h'', eq, pushed, eq', popped)
