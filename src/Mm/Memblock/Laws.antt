-- ===== src/Mm/Memblock/Laws.antt =====
-- The free list of mm/memblock.c: which pages it holds, and what each operation does to it.
use loos_lab.Base.Int.{ℤ, ltb_ℤ, pos}
use loos_lab.Base.Run.{done, halted}
use mathlib.Core.Path.{}
use loos_lab.Base.{
  ℕ, ◌+◌, ◌%◌, ◌^◌, ◌≤◌, ◌<◌, ◌≡◌, refl, ◌≢◌, ◌⊎◌, true, false, List, [], ◌∷◌, arith, has, Distinct,
}
use loos_lab.Memory.{Mem, filled, ◌≗◌}
use loos_lab.Memory.Words.{get64, get64_ext, put64_off, get64-put64_self}
use loos_lab.Libc.Block.{memset}
use loos_lab.Libc.Block.Laws.{memset-filled}
use loos_lab.Mm.Layout.{pg_size}
use loos_lab.Mm.Memblock.{Kmem, kfree_page_memblock, kalloc_page_memblock, kmalloc, kfree}

-- A page of the kernel: aligned, not NULL, inside the address space.
pub record IsPage (x : ℕ) : Type 0 where
  pub aligned : x % pg_size ≡ 0
  pub not_null : x ≢ 0
  pub fits : x + pg_size ≤ 2 ^ 64

-- From `p` the `next` words lead through the pages `xs` to NULL.
abbrev pub FreeList : Mem → ℕ → List ℕ → Type 0
FreeList m p [] = p ≡ 0
FreeList m p (x ∷ xs) = (p ≡ x) × IsPage x × FreeList m (get64 m x) xs

-- The allocator holds exactly the pages `xs`, in this order, each once.
pub record IsKmem (k : Kmem) (xs : List ℕ) : Type 0 where
  pub chain : FreeList k.mem k.freelist xs
  pub distinct : Distinct xs

FreeList-head-lt : (m : Mem) (p : ℕ) (xs : List ℕ) → FreeList m p xs → p < 2 ^ 64
FreeList-head-lt m p [] c = omega arith
FreeList-head-lt m p (x ∷ xs) c = omega (arith, c.0, c.1.fits)

-- Writes inside a page that the list does not hold leave the list.
pub FreeList-frame :
    (m m' : Mem) (p x : ℕ) (xs : List ℕ)
    → FreeList m p xs
    → x % pg_size ≡ 0
    → has x xs ≡ false
    → ((a : ℕ) → (a < x) ⊎ (x + pg_size ≤ a) → m a ≡ m' a)
    → FreeList m' p xs
FreeList-frame m m' p x [] c al off same = c
FreeList-frame m m' p x (y ∷ ys) c al off same =
    (c.0, c.1, rw word at (FreeList-frame m m' (get64 m y) x ys c.2 al (ground arith) same))
  where
    ne : x ≢ y
    ne = ground arith

    word : get64 m y ≡ get64 m' y
    word = get64_ext m m' y (λ a lo hi. same a (omega (arith, ne, al, c.1.aligned)))

module _ (k : Kmem) (x : ℕ) where
  kfree_outside : (a : ℕ) → (a < x) ⊎ (x + pg_size ≤ a) → k.mem a ≡ (kfree_page_memblock k x).mem a
  unfolding kfree_page_memblock filled
  kfree_outside a h = ground (
    arith,
    put64_off (memset k.mem x 1 pg_size).0 x k.freelist a (omega arith),
    (memset-filled k.mem x 1 pg_size).0 a,
  )

  kfree_next : k.freelist < 2 ^ 64 → get64 (kfree_page_memblock k x).mem x ≡ k.freelist
  unfolding kfree_page_memblock
  kfree_next h = get64-put64_self (memset k.mem x 1 pg_size).0 x k.freelist h

  -- Freeing a page that is not free puts it in front of the list, and writes inside it alone.
  pub kfree_page_memblock-IsKmem :
      (xs : List ℕ)
      → IsKmem k xs
      → IsPage x
      → has x xs ≡ false
      → IsKmem (kfree_page_memblock k x) (x ∷ xs)
        × ((a : ℕ) → (a < x) ⊎ (x + pg_size ≤ a) → k.mem a ≡ (kfree_page_memblock k x).mem a)
  unfolding kfree_page_memblock
  kfree_page_memblock-IsKmem xs is page off = (
    record {
      chain = (
        refl,
        page,
        rw (kfree_next (FreeList-head-lt k.mem k.freelist xs is.chain)) (
            FreeList-frame k.mem (kfree_page_memblock k x).mem k.freelist x xs is.chain page.aligned
              off kfree_outside),
      );
      distinct = (off, is.distinct);
    },
    kfree_outside,
  )

-- With a page free the allocator hands out the first one, filled with fives, writes nowhere else
-- and keeps the rest.
pub kalloc_page_memblock-IsKmem :
    (k : Kmem) (x : ℕ) (xs : List ℕ)
    → IsKmem k (x ∷ xs)
    → (k' : Kmem) × (kalloc_page_memblock k ≡ done (x, k'))
      × IsKmem k' xs
      × (k'.mem ≗ filled k.mem x 5 pg_size)
      × IsPage x
      × (has x xs ≡ false)
unfolding kalloc_page_memblock
kalloc_page_memblock-IsKmem k x xs is = (
  record { mem = (memset k.mem k.freelist 5 pg_size).0; freelist = get64 k.mem k.freelist },
  ground (arith, is.chain),
  record {
    chain =
        FreeList-frame k.mem (memset k.mem k.freelist 5 pg_size).0 (get64 k.mem k.freelist) x xs
          (rw (is.chain.0) is.chain.2) is.chain.1.aligned is.distinct.0
          (λ a h.
            unfold filled in
            ground (arith, (memset-filled k.mem k.freelist 5 pg_size).0 a, is.chain.0));
    distinct = is.distinct.1;
  },
  rw (is.chain.0) ((memset-filled k.mem x 5 pg_size).0),
  is.chain.1,
  is.distinct.0,
)

-- With no page free the allocator panics.
pub kalloc_page_memblock-empty : (k : Kmem) → IsKmem k [] → kalloc_page_memblock k ≡ halted
unfolding kalloc_page_memblock
kalloc_page_memblock-empty k is = ground (arith, is.chain)

-- `kmalloc` of at most a page, then `kfree` of what it returned: the same pages are free again.
pub kmalloc-kfree :
    (k : Kmem) (size : ℤ) (x : ℕ) (xs : List ℕ)
    → IsKmem k (x ∷ xs)
    → ltb_ℤ (pos pg_size) size ≡ false
    → (k₁ k₂ : Kmem) × (kmalloc k size ≡ done (x, k₁))
      × IsKmem k₁ xs
      × (kfree k₁ x ≡ done k₂)
      × IsKmem k₂ (x ∷ xs)
unfolding kmalloc kfree
kmalloc-kfree k size x xs is small =
    let (k₁, eq, is₁, _, page, off) = kalloc_page_memblock-IsKmem k x xs is in
    (
      k₁,
      kfree_page_memblock k₁ x,
      ground (arith, eq),
      is₁,
      ground (arith, page.aligned),
      (kfree_page_memblock-IsKmem k₁ x xs is₁ page off).0,
    )

-- The errors: a request above a page and an address off the page grid halt the machine.
pub kmalloc_too_large :
    (k : Kmem) (size : ℤ) → ltb_ℤ (pos pg_size) size ≡ true → kmalloc k size ≡ halted
unfolding kmalloc
kmalloc_too_large k size h = rw h refl

pub kfree_unaligned : (k : Kmem) (x : ℕ) → x % pg_size ≢ 0 → kfree k x ≡ halted
unfolding kfree
kfree_unaligned k x h = ground arith
