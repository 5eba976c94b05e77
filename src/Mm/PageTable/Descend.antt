-- ===== src/Mm/PageTable/Descend.antt =====
-- A round of `__map_single_page` that makes a table, in the root or in a middle table.

use loos_lab.Base.{
  ℕ, ◌<◌, ◌≡◌, ◌≢◌, inl, inr, true, false, ◌&&◌, List, ◌∷◌, arith, ◌==◌, if◌then◌else◌, Bool-cases,
  has,
}
use loos_lab.Base.Run.{done}
use loos_lab.Mm.Memblock.{Kmem}
use loos_lab.Mm.PageTable.{descend}
use loos_lab.Mm.PageTable.Space.{Role, InWindow, Space, free, middle, last}
use loos_lab.Mm.PageTable.Grow.{Grown, new_table-Grown}

abbrev pub upd {ℓ} : {A : Type ℓ} → (ℕ → A) → ℕ → A → ℕ → A
upd f p v q = if q == p then v else f q

abbrev pub clear_row : (ℕ → ℕ → ℕ) → ℕ → ℕ → ℕ → ℕ
clear_row f i a b = if a == i then 0 else f a b

abbrev pub upd₂ : (ℕ → ℕ → ℕ) → ℕ → ℕ → ℕ → ℕ → ℕ → ℕ
upd₂ f i j v a b = if a == i && b == j then v else f a b

module _ {k : Kmem} {pt : ℕ} {own : ℕ → Role} {mid : ℕ → ℕ} {leaf : ℕ → ℕ → ℕ} {x : ℕ} {xs : List ℕ}
    (s : Space k pt own mid leaf (x ∷ xs)) (i : ℕ) (hi : i < 2048) where
  pub x_free : (own x ≡ free) × InWindow x
  x_free = s.free_role x (ground arith)

  tail_free : (y : ℕ) → has y xs ≡ true → (y ≢ x) × (has y (x ∷ xs) ≡ true)
  tail_free y h = (λ e. ground (arith, s.kmem.distinct), ground arith)

  root_off : (pt ≢ x) × (has pt xs ≡ false)
  root_off = (
    λ e. ground (arith, x_free, s.root_role),
    ground (arith, s.root_role, s.free_role pt, tail_free pt),
  )

  pub mid_off : (a : ℕ) → a < 2048 → mid a ≢ 0 → (mid a ≢ x) × (mid a ≢ pt)
  mid_off a ha nz = (
    λ e. ground (arith, x_free, s.mid_role a ha nz),
    λ e. ground (arith, s.root_role, s.mid_role a ha nz),
  )

  pub leaf_off :
      (a b : ℕ)
      → a < 2048
      → b < 2048
      → mid a ≢ 0
      → leaf a b ≢ 0
      → (leaf a b ≢ x) × (leaf a b ≢ pt) × ((c : ℕ) → c < 2048 → mid c ≢ 0 → leaf a b ≢ mid c)
  leaf_off a b ha hb nz nzl = (
    λ e. ground (arith, x_free, s.leaf_role a b ha hb nz nzl),
    λ e. ground (arith, s.root_role, s.leaf_role a b ha hb nz nzl),
    λ c hc nzc e. ground (arith, s.mid_role c hc nzc, s.leaf_role a b ha hb nz nzl),
  )

  -- A missing table behind root index `i` is made of the first free page.
  pub grow_root :
      mid i ≡ 0
      → (k' : Kmem) × (descend k pt i ≡ done (x, k'))
        × Space k' pt (upd own x (middle i)) (upd mid i x) (clear_row leaf i) xs
        × Grown k k' x pt i xs
  unfolding descend
  grow_root none_yet =
      let (k', eq, g) =
        new_table-Grown k x pt i xs s.kmem x_free.1.page s.root_page.page.aligned root_off.0
          root_off.1 hi in
      (
        k',
        ground (arith, eq, s.mid_entry i),
        record {
          kmem = g.kmem;
          free_role = λ y h. ground (arith, s.free_role y, tail_free y h);
          root_role = ground (arith, root_off, s.root_role);
          root_page = s.root_page;
          mid_entry = λ j hj. ground (
            arith,
            g.linked,
            g.others pt j s.root_page.page.aligned hj root_off.0,
            s.mid_entry j hj,
          );
          mid_role = λ j hj nz. ground (arith, x_free, s.mid_role j hj);
          leaf_entry = λ a b ha hb nz. elim (Bool-cases (a == i)) [
            | inl e ↦ ground (arith, g.blank b hb)
            | inr ne ↦ ground (
              arith,
              s.mid_role a ha,
              mid_off a ha,
              g.others (mid a) b (s.mid_role a ha (ground arith)).1.page.aligned hb,
              s.leaf_entry a b ha hb,
            )
          ];
          leaf_role = λ a b ha hb nz nzl. ground (arith, s.leaf_role a b ha hb, leaf_off a b ha hb);
        },
        g,
      )

  mid_tail : mid i ≢ 0 → has (mid i) xs ≡ false
  mid_tail nz = ground (arith, s.mid_role i hi nz, s.free_role (mid i), tail_free (mid i))

  pub mid_inj : (a : ℕ) → a < 2048 → mid a ≢ 0 → mid i ≢ 0 → mid a ≡ mid i → a ≡ i
  mid_inj a ha nz nz' e = ground (arith, s.mid_role a ha nz, s.mid_role i hi nz')

  -- A missing table behind the indices `i` and `j` is made of the first free page.
  pub grow_middle :
      (j : ℕ)
      → j < 2048
      → mid i ≢ 0
      → leaf i j ≡ 0
      → (k' : Kmem) × (descend k (mid i) j ≡ done (x, k'))
        × Space k' pt (upd own x (last i j)) mid (upd₂ leaf i j x) xs
        × Grown k k' x (mid i) j xs
  unfolding descend
  grow_middle j hj nz none_yet =
      let (role, win) = s.mid_role i hi nz in
      let (k', eq, g) =
        new_table-Grown k x (mid i) j xs s.kmem x_free.1.page win.page.aligned (mid_off i hi nz).0
          (mid_tail nz) hj in
      (
        k',
        ground (arith, eq, s.leaf_entry i j hi hj),
        record {
          kmem = g.kmem;
          free_role = λ y h. ground (arith, s.free_role y, tail_free y h);
          root_role = ground (arith, root_off, s.root_role);
          root_page = s.root_page;
          mid_entry = λ a ha. ground (
            arith,
            g.others pt a s.root_page.page.aligned ha root_off.0,
            mid_off i hi nz,
            s.mid_entry a ha,
          );
          mid_role = λ a ha nza. ground (arith, mid_off a ha nza, s.mid_role a ha nza);
          leaf_entry = λ a b ha hb nza. ground (
            arith,
            g.linked,
            mid_off a ha nza,
            mid_inj a ha nza nz,
            g.others (mid a) b (s.mid_role a ha nza).1.page.aligned hb,
            s.leaf_entry a b ha hb nza,
          );
          leaf_role = λ a b ha hb nza nzl.
              ground (arith, x_free, s.leaf_role a b ha hb nza, leaf_off a b ha hb nza);
        },
        g,
      )
