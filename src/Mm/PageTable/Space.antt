-- ===== src/Mm/PageTable/Space.antt =====
-- A well-formed address space: which page serves which table, told by a ghost map of page roles, and
-- the table of entries that the three levels stand for.

use loos_lab.Base.{ℕ, ◌<◌, ◌≡◌, ◌≢◌, true, List, ◌==◌, if◌then◌else◌, has}
use loos_lab.Mm.Layout.{pa2va, pte2pa, px}
use loos_lab.Mm.Memblock.{Kmem}
use loos_lab.Mm.Memblock.Laws.{IsPage, IsKmem}
use loos_lab.Mm.PageTable.{entry}

-- What a page is used for: free, the root, the table behind root index `i`, the last table behind
-- the indices `i` and `j`, or anything else.
pub data Role : Type 0 where
  free : Role
  root : Role
  middle : ℕ → Role
  last : ℕ → ℕ → Role
  other : Role

-- A page in the window `MAIN_KERNEL_DMW`, where `PA2VA(PTE2PA(t))` gives the page back.
pub record InWindow (t : ℕ) : Type 0 where
  pub page : IsPage t
  pub window : pa2va (pte2pa t) ≡ t

-- The tables: `mid i` and `leaf i j` are the entries of the root and of the middle tables.
pub record Space (k : Kmem) (pt : ℕ) (own : ℕ → Role) (mid : ℕ → ℕ) (leaf : ℕ → ℕ → ℕ) (xs : List ℕ)
    : Type 0 where
  pub kmem : IsKmem k xs
  pub free_role : (x : ℕ) → has x xs ≡ true → (own x ≡ free) × InWindow x
  pub root_role : own pt ≡ root
  pub root_page : InWindow pt
  pub mid_entry : (i : ℕ) → i < 2048 → entry k.mem pt i ≡ mid i
  pub mid_role : (i : ℕ) → i < 2048 → mid i ≢ 0 → (own (mid i) ≡ middle i) × InWindow (mid i)
  pub leaf_entry : (i j : ℕ) → i < 2048 → j < 2048 → mid i ≢ 0 → entry k.mem (mid i) j ≡ leaf i j
  pub leaf_role :
      (i j : ℕ)
      → i < 2048
      → j < 2048
      → mid i ≢ 0
      → leaf i j ≢ 0
      → (own (leaf i j) ≡ last i j) × InWindow (leaf i j)

-- The entry that a lookup of `va` ends at, 0 where a table is missing.
abbrev pub pte_of : Kmem → (mid : ℕ → ℕ) → (leaf : ℕ → ℕ → ℕ) → ℕ → ℕ
pte_of k mid leaf va =
    if mid (px 2 va) == 0
    then 0
    else if leaf (px 2 va) (px 1 va) == 0
    then 0
    else entry k.mem (leaf (px 2 va) (px 1 va)) (px 0 va)
