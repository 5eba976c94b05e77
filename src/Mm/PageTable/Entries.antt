-- ===== src/Mm/PageTable/Entries.antt =====
-- Entries of page tables under the writes of mm/n_vm.c: a store to one entry, and a new table.

use loos_lab.Base.{
  ℕ, ◌+◌, ◌*◌, ◌%◌, ◌^◌, ◌≤◌, ◌<◌, ◌≡◌, sym, ◌≢◌, ◌⊎◌, false, List, ◌∷◌, arith, has,
}
use loos_lab.Base.Run.{done}
use loos_lab.Memory.{Mem, filled, ◌≗◌}
use loos_lab.Memory.Words.{put64, get64, put64_off, get64-put64_self, get64-put64_ne}
use loos_lab.Libc.Block.{memset}
use loos_lab.Libc.Block.Laws.{memset-filled}
use loos_lab.Mm.Layout.{pg_size}
use loos_lab.Mm.Memblock.{Kmem, kmalloc}
use loos_lab.Mm.Memblock.Laws.{IsKmem, FreeList-frame, kalloc_page_memblock-IsKmem}
use loos_lab.Mm.PageTable.{entry, set_entry, zeroed_page}

-- A store to an entry is read back, and no other entry of any table changes.
pub entry-set_self : (k : Kmem) (t i v : ℕ) → v < 2 ^ 64 → entry (set_entry k t i v).mem t i ≡ v
entry-set_self k t i v h = get64-put64_self k.mem (t + 8 * i) v h

pub entry-set_ne :
    (k : Kmem) (t i v t' j : ℕ)
    → t % pg_size ≡ 0
    → t' % pg_size ≡ 0
    → i < 2048
    → j < 2048
    → (t' ≢ t) ⊎ (j ≢ i)
    → entry (set_entry k t i v).mem t' j ≡ entry k.mem t' j
entry-set_ne k t i v t' j al al' hi hj ne =
    get64-put64_ne k.mem (t + 8 * i) (t' + 8 * j) v (omega (arith, ne, al, al'))

-- A store to an entry of a table that is not free keeps the free list.
pub set_entry-IsKmem :
    (k : Kmem) (t i v : ℕ) (xs : List ℕ)
    → IsKmem k xs
    → t % pg_size ≡ 0
    → i < 2048
    → has t xs ≡ false
    → IsKmem (set_entry k t i v) xs
set_entry-IsKmem k t i v xs is al hi off = record {
  chain =
      FreeList-frame k.mem (put64 k.mem (t + 8 * i) v) k.freelist t xs is.chain al off
        (λ a h. sym (put64_off k.mem (t + 8 * i) v a (omega (arith, h, hi))));
  distinct = is.distinct;
}

pub filled_word : (m m' : Mem) (x j : ℕ) → j < 2048 → (m' ≗ filled m x 0 pg_size) → entry m' x j ≡ 0
unfolding get64
filled_word m m' x j h same = omega (
  arith,
  zero_at (x + 8 * j) (omega arith),
  zero_at (x + 8 * j + 1) (omega arith),
  zero_at (x + 8 * j + 2) (omega arith),
  zero_at (x + 8 * j + 3) (omega arith),
  zero_at (x + 8 * j + 4) (omega arith),
  zero_at (x + 8 * j + 5) (omega arith),
  zero_at (x + 8 * j + 6) (omega arith),
  zero_at (x + 8 * j + 7) (omega arith),
)
  where
    zero_at : (a : ℕ) → (x ≤ a) × (a < x + pg_size) → m' a ≡ 0
    zero_at a r = unfold filled in ground (arith, same a)

filled_twice :
    (m : Mem) (x c : ℕ) → filled (filled m x 5 pg_size) x c pg_size ≗ filled m x c pg_size
unfolding filled
filled_twice m x c a = ground arith

-- A fresh page: the first free one, zeroed; nothing else written.
pub zeroed_page_lem :
    (k : Kmem) (x : ℕ) (xs : List ℕ)
    → IsKmem k (x ∷ xs)
    → (k' : Kmem) × (zeroed_page k ≡ done (x, k'))
      × IsKmem k' xs
      × (k'.mem ≗ filled k.mem x 0 pg_size)
unfolding zeroed_page kmalloc
zeroed_page_lem k x xs is =
    let (k', eq, is', mem, page, off) = kalloc_page_memblock-IsKmem k x xs is in
    let z = (memset k'.mem x 0 pg_size).0 in
    let (zmem, _) = memset-filled k'.mem x 0 pg_size in
    (
      record k' { mem = z },
      ground (arith, eq),
      record {
        chain =
            FreeList-frame k'.mem z k'.freelist x xs is'.chain page.aligned off
              (λ a h. unfold filled in ground (arith, zmem a));
        distinct = is'.distinct;
      },
      λ a. unfold filled in ground (arith, zmem a, mem a),
    )
