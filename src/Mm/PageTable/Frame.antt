-- ===== src/Mm/PageTable/Frame.antt =====
-- An address space under writes to the pages of other users.

use loos_lab.Base.{
  ℕ, ◌+◌, ◌-◌, ◌*◌, ◌%◌, ◌<◌, ◌≡◌, sym, ◌∙◌, ◌≢◌, inl, inr, true, List, [], ◌∷◌, arith, ◌==◌,
  Bool-cases, has,
}
use loos_lab.Memory.{Mem}
use loos_lab.Memory.Words.{get64, get64_ext}
use loos_lab.Mm.Layout.{pg_size, px}
use loos_lab.Mm.Memblock.{Kmem}
use loos_lab.Mm.Memblock.Laws.{FreeList}
use loos_lab.Mm.PageTable.{entry}
use loos_lab.Mm.PageTable.Space.{Role, Space, pte_of, other}
use loos_lab.Mm.PageTable.Extend.{px-lt}

FreeList-same :
    (m m' : Mem) (p : ℕ) (xs : List ℕ)
    → FreeList m p xs
    → ((x : ℕ) → has x xs ≡ true → get64 m x ≡ get64 m' x)
    → FreeList m' p xs
FreeList-same m m' p [] c same = c
FreeList-same m m' p (x ∷ xs) c same = (
  c.0,
  c.1,
  rw (same x (ground arith)) at
      (FreeList-same m m' (get64 m x) xs c.2 (λ y h. same y (ground arith))),
)

-- The page that an address lies in.
abbrev pub page_of : ℕ → ℕ
page_of a = a - a % pg_size

module _ {k : Kmem} {pt : ℕ} {own : ℕ → Role} {mid : ℕ → ℕ} {leaf : ℕ → ℕ → ℕ} {xs : List ℕ}
    (s : Space k pt own mid leaf xs) (m : Mem)
    (same : (a : ℕ) → own (page_of a) ≢ other → m a ≡ k.mem a) where
  table_same :
      (t j : ℕ) → t % pg_size ≡ 0 → own t ≢ other → j < 2048 → entry m t j ≡ entry k.mem t j
  table_same t j al table hj =
      get64_ext m k.mem (t + 8 * j)
        (λ a lo hi. let here : page_of a ≡ t = omega (arith, al) in same a (rw here table))

  pub frame-Space : Space (record k { mem = m }) pt own mid leaf xs
  frame-Space = record {
    kmem = record {
      chain = FreeList-same k.mem m k.freelist xs s.kmem.chain (λ x h.
          let (role, win) = s.free_role x h in
          get64_ext k.mem m x (λ a lo hi.
            let here : page_of a ≡ x = omega (arith, win.page.aligned) in
            sym (same a (rw here (λ e. ground (arith, role, e))))));
      distinct = s.kmem.distinct;
    };
    free_role = s.free_role;
    root_role = s.root_role;
    root_page = s.root_page;
    mid_entry = λ i h.
        table_same pt i s.root_page.page.aligned (λ e. ground (arith, s.root_role, e)) h
        ∙ s.mid_entry i h;
    mid_role = s.mid_role;
    leaf_entry = λ i j hi hj nz.
        let (role, win) = s.mid_role i hi nz in
        table_same (mid i) j win.page.aligned (λ e. ground (arith, role, e)) hj
        ∙ s.leaf_entry i j hi hj nz;
    leaf_role = s.leaf_role;
  }

  pub frame-pte : (va : ℕ) → pte_of (record k { mem = m }) mid leaf va ≡ pte_of k mid leaf va
  frame-pte va = elim (Bool-cases (mid (px 2 va) == 0)) [
    | inl no_mid ↦ ground arith
    | inr has_mid ↦ elim (Bool-cases (leaf (px 2 va) (px 1 va) == 0)) [
      | inl no_leaf ↦ ground arith
      | inr has_leaf ↦
          let (role, win) =
            s.leaf_role (px 2 va) (px 1 va) (px-lt 2 va) (px-lt 1 va) (ground arith)
              (ground arith) in
          ground (
            arith,
            table_same (leaf (px 2 va) (px 1 va)) (px 0 va) win.page.aligned
                (λ e. ground (arith, role, e)) (px-lt 0 va),
          )
    ]
  ]
