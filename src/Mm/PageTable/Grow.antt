-- ===== src/Mm/PageTable/Grow.antt =====
-- A round of `__map_single_page` on a well-formed address space: the next table is there, or is made.

use loos_lab.Base.{
  ℕ, ◌+◌, ◌*◌, ◌%◌, ◌≤◌, ◌<◌, ◌≡◌, sym, ◌∙◌, ◌≢◌, ◌⊎◌, inl, false, List, ◌∷◌, arith, has,
}
use loos_lab.Base.Run.{done}
use loos_lab.Memory.{filled}
use loos_lab.Memory.Words.{get64_ext, put64_off}
use loos_lab.Mm.Layout.{pg_size}
use loos_lab.Mm.Memblock.{Kmem}
use loos_lab.Mm.Memblock.Laws.{IsPage, IsKmem}
use loos_lab.Mm.PageTable.{entry, set_entry, new_table}
use loos_lab.Mm.PageTable.Entries.{
  entry-set_self, entry-set_ne, set_entry-IsKmem, filled_word, zeroed_page_lem,
}

-- What `new_table` does to the entries of tables.
pub record Grown (k k' : Kmem) (x t i : ℕ) (xs : List ℕ) : Type 0 where
  pub kmem : IsKmem k' xs
  pub linked : entry k'.mem t i ≡ x
  pub blank : (j : ℕ) → j < 2048 → entry k'.mem x j ≡ 0
  pub others :
      (t' j : ℕ)
      → t' % pg_size ≡ 0
      → j < 2048
      → t' ≢ x
      → (t' ≢ t) ⊎ (j ≢ i)
      → entry k'.mem t' j ≡ entry k.mem t' j
  -- Outside the new page and the entry no byte changes.
  pub bytes :
      (a : ℕ) → (a < x) ⊎ (x + pg_size ≤ a) → (a < t) ⊎ (t + pg_size ≤ a) → k'.mem a ≡ k.mem a

pub new_table-Grown :
    (k : Kmem) (x t i : ℕ) (xs : List ℕ)
    → IsKmem k (x ∷ xs)
    → IsPage x
    → t % pg_size ≡ 0
    → t ≢ x
    → has t xs ≡ false
    → i < 2048
    → (k' : Kmem) × (new_table k t i ≡ done (x, k')) × Grown k k' x t i xs
unfolding new_table
new_table-Grown k x t i xs is page al ne off hi =
    let (z, eq, isz, mem) = zeroed_page_lem k x xs is in
    let self = entry-set_self z t i x (omega (arith, page.fits)) in
    (
      set_entry z t i x,
      ground (arith, eq, self),
      record {
        kmem = set_entry-IsKmem z t i x xs isz al hi off;
        linked = self;
        blank = λ j hj.
            entry-set_ne z t i x x j al page.aligned hi hj (inl (λ e. ne (sym e)))
            ∙ filled_word k.mem z.mem x j hj mem;
        others = λ t' j al' hj nx diff.
            entry-set_ne z t i x t' j al al' hi hj diff
            ∙ get64_ext z.mem k.mem (t' + 8 * j) (λ a lo hi'.
              unfold filled in ground (arith, mem a, apart t' j a al' page.aligned nx hj lo hi'));
        bytes = λ a ox ot.
            put64_off z.mem (t + 8 * i) x a (omega arith) ∙ unfold filled in ground (arith, mem a);
      },
    )
  where
    apart :
        (t' j a : ℕ)
        → t' % pg_size ≡ 0
        → x % pg_size ≡ 0
        → t' ≢ x
        → j < 2048
        → t' + 8 * j ≤ a
        → a < t' + 8 * j + 8
        → (a < x) ⊎ (x + pg_size ≤ a)
    apart t' j a al' alx nx hj lo hi' = omega arith
