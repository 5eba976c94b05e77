-- ===== src/Mm/PageTable/Extend.antt =====
-- The rounds of `__map_single_page`, whether or not they make a table.

use loos_lab.Base.Run.{done}
use loos_lab.Base.{
  ℕ, ◌+◌, ◌%◌, ◌≤◌, ◌<◌, ◌≡◌, refl, ◌≢◌, inl, inr, List, ◌∷◌, arith, ◌==◌, Bool-cases, length,
}
use loos_lab.Mm.Layout.{pg_size, px}
use loos_lab.Mm.Memblock.{Kmem}
use loos_lab.Mm.PageTable.{descend}
use loos_lab.Mm.PageTable.Space.{Role, Space, pte_of, root, middle, last, other}
use loos_lab.Mm.PageTable.Grow.{Grown}
use loos_lab.Mm.PageTable.Descend.{upd, clear_row, upd₂, x_free, leaf_off, grow_root, grow_middle}

pub px-lt : (level va : ℕ) → px level va < 2048
unfolding px
px-lt level va = omega arith

-- A later state of the same address space: at most one page of the free list is used up, no entry is
-- changed, and the pages of other users keep their bytes and their role.
pub record Extended (k : Kmem) (pt : ℕ) (own : ℕ → Role) (mid : ℕ → ℕ) (leaf : ℕ → ℕ → ℕ)
    (xs : List ℕ) : Type 0 where
  pub k' : Kmem
  pub own' : ℕ → Role
  pub mid' : ℕ → ℕ
  pub leaf' : ℕ → ℕ → ℕ
  pub xs' : List ℕ
  pub space : Space k' pt own' mid' leaf' xs'
  pub fewer : length xs ≤ length xs' + 1
  pub ptes : (va : ℕ) → pte_of k' mid' leaf' va ≡ pte_of k mid leaf va
  pub bytes :
      (p a : ℕ) → p % pg_size ≡ 0 → own p ≡ other → p ≤ a → a < p + pg_size → k'.mem a ≡ k.mem a
  pub roles : (p : ℕ) → own p ≡ other → own' p ≡ other

module _ {k : Kmem} {pt : ℕ} {own : ℕ → Role} {mid : ℕ → ℕ} {leaf : ℕ → ℕ → ℕ} {xs : List ℕ}
    (s : Space k pt own mid leaf xs) (i : ℕ) (hi : i < 2048) where
  stay : Extended k pt own mid leaf xs
  stay = record {
    k' = k;
    own' = own;
    mid' = mid;
    leaf' = leaf;
    xs' = xs;
    space = s;
    fewer = omega arith;
    ptes = λ va. refl;
    bytes = λ p a al o lo h. refl;
    roles = λ p o. o;
  }

module _ {k : Kmem} {pt : ℕ} {own : ℕ → Role} {mid : ℕ → ℕ} {leaf : ℕ → ℕ → ℕ} {x : ℕ} {xs : List ℕ}
    (s : Space k pt own mid leaf (x ∷ xs)) (i : ℕ) (hi : i < 2048) where
  other_bytes :
      (k' : Kmem) (t j : ℕ)
      → Grown k k' x t j xs
      → t % pg_size ≡ 0
      → own t ≢ other
      → (p a : ℕ) → p % pg_size ≡ 0
      → own p ≡ other
      → p ≤ a
      → a < p + pg_size
      → k'.mem a ≡ k.mem a
  other_bytes k' t j g al nt p a alp o lo h =
      let ne_x : p ≢ x = λ e. ground (arith, x_free s i hi) in
      let ne_t : p ≢ t = λ e. nt (ground arith) in
      g.bytes a (omega (arith, ne_x, (x_free s i hi).1.page.aligned)) (omega (arith, ne_t, al))

  root_pte :
      mid i ≡ 0
      → (k' : Kmem) → Grown k k' x pt i xs
      → (va : ℕ) → pte_of k' (upd mid i x) (clear_row leaf i) va ≡ pte_of k mid leaf va
  root_pte none_yet k' g va =
      let a = px 2 va in
      let b = px 1 va in
      ground (
        arith,
        s.leaf_role a b (px-lt 2 va) (px-lt 1 va),
        leaf_off s i hi a b (px-lt 2 va) (px-lt 1 va),
        g.others (leaf a b) (px 0 va),
        px-lt 0 va,
      )

  middle_pte :
      (j : ℕ)
      → j < 2048
      → mid i ≢ 0
      → leaf i j ≡ 0
      → (k' : Kmem) → Grown k k' x (mid i) j xs
      → (va : ℕ) → pte_of k' mid (upd₂ leaf i j x) va ≡ pte_of k mid leaf va
  middle_pte j hj nz none_yet k' g va =
      let a = px 2 va in
      let b = px 1 va in
      ground (
        arith,
        s.leaf_role a b (px-lt 2 va) (px-lt 1 va),
        off a b (px-lt 2 va) (px-lt 1 va),
        g.others (leaf a b) (px 0 va),
        g.blank (px 0 va),
        px-lt 0 va,
      )
    where
      off :
          (a b : ℕ)
          → a < 2048
          → b < 2048
          → mid a ≢ 0
          → leaf a b ≢ 0
          → (leaf a b ≢ x) × (leaf a b ≢ mid i)
      off a b ha hb nza nzl =
          let (no_x, _, no_mid) = leaf_off s i hi a b ha hb nza nzl in (no_x, no_mid i hi nz)

  extend_root :
      mid i ≡ 0
      → (e : Extended k pt own mid leaf (x ∷ xs)) × (descend k pt i ≡ done (e.mid' i, e.k'))
        × (e.mid' i ≢ 0)
        × (e.own' pt ≡ root)
  extend_root none_yet =
      let (k', eq, sp, g) = grow_root s i hi none_yet in
      let at_i : upd mid i x i ≡ x = ground arith in
      (
        record {
          k' = k';
          own' = upd own x (middle i);
          mid' = upd mid i x;
          leaf' = clear_row leaf i;
          xs' = xs;
          space = sp;
          fewer = omega arith;
          ptes = root_pte none_yet k' g;
          bytes = other_bytes k' pt i g s.root_page.page.aligned (λ e. ground (arith, s.root_role));
          roles = λ p o. ground (arith, x_free s i hi);
        },
        ground (arith, eq),
        ground (arith, (x_free s i hi).1.page.not_null),
        sp.root_role,
      )

  extend_middle :
      (j : ℕ)
      → j < 2048
      → mid i ≢ 0
      → leaf i j ≡ 0
      → (e : Extended k pt own mid leaf (x ∷ xs)) × (descend k (mid i) j ≡ done (e.leaf' i j, e.k'))
        × (e.mid' i ≢ 0)
        × (e.leaf' i j ≢ 0)
  extend_middle j hj nz none_yet =
      let (k', eq, sp, g) = grow_middle s i hi j hj nz none_yet in
      let (role, win) = s.mid_role i hi nz in
      let at_ij : upd₂ leaf i j x i j ≡ x = ground arith in
      (
        record {
          k' = k';
          own' = upd own x (last i j);
          mid' = mid;
          leaf' = upd₂ leaf i j x;
          xs' = xs;
          space = sp;
          fewer = omega arith;
          ptes = middle_pte j hj nz none_yet k' g;
          bytes = other_bytes k' (mid i) j g win.page.aligned (λ e. ground (arith, role));
          roles = λ p o. ground (arith, x_free s i hi);
        },
        ground (arith, eq),
        nz,
        ground (arith, (x_free s i hi).1.page.not_null),
      )

module _ {k : Kmem} {pt : ℕ} {own : ℕ → Role} {mid : ℕ → ℕ} {leaf : ℕ → ℕ → ℕ} where
  -- The first round, with a free page at hand.
  pub descend_root :
      (x : ℕ) (xs : List ℕ) (s : Space k pt own mid leaf (x ∷ xs)) (i : ℕ)
      → i < 2048
      → (e : Extended k pt own mid leaf (x ∷ xs)) × (descend k pt i ≡ done (e.mid' i, e.k'))
        × (e.mid' i ≢ 0)
  unfolding descend stay
  descend_root x xs s i hi = elim (Bool-cases (mid i == 0)) [
    | inl none_yet ↦ let (e, eq, nz, _) = extend_root s i hi (ground arith) in (e, eq, nz)
    | inr there ↦ (stay s i hi, ground (arith, s.mid_entry i hi), ground arith)
  ]

  -- The second round.
  pub descend_middle :
      (x : ℕ) (xs : List ℕ) (s : Space k pt own mid leaf (x ∷ xs)) (i j : ℕ)
      → i < 2048
      → j < 2048
      → mid i ≢ 0
      → (e : Extended k pt own mid leaf (x ∷ xs)) × (descend k (mid i) j ≡ done (e.leaf' i j, e.k'))
        × (e.mid' i ≢ 0)
        × (e.leaf' i j ≢ 0)
  unfolding descend stay
  descend_middle x xs s i j hi hj nz = elim (Bool-cases (leaf i j == 0)) [
    | inl none_yet ↦ extend_middle s i hi j hj nz (ground arith)
    | inr there ↦ (stay s i hi, ground (arith, s.leaf_entry i j hi hj nz), nz, ground arith)
  ]
