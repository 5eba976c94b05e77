-- ===== src/Mm/PageTable/Store.antt =====
-- The store that ends `__map_single_page`: the word it makes, and what it does to an address space.

use loos_lab.Base.{
  ℕ, ◌/◌, ◌%◌, ◌^◌, ◌<◌, bit_or, ◌≡◌, sym, ap, ◌∙◌, ◌≢◌, ◌⊎◌, inl, inr, List, arith, ◌==◌,
  if◌then◌else◌, ==→eq, ==→ne, Bool-cases,
}
use loos_lab.Base.Bits.{bit_or-halves, bit_or-div, bit_or-mod, bit_or-zero}
use loos_lab.Mm.Layout.{pg_size, pte2pa, pte_flags, px, max_va}
use loos_lab.Mm.Memblock.{Kmem}
use loos_lab.Mm.PageTable.{set_entry}
use loos_lab.Mm.PageTable.Space.{Role, InWindow, Space, pte_of, last}
use loos_lab.Mm.PageTable.Entries.{entry-set_self, entry-set_ne, set_entry-IsKmem}
use loos_lab.Mm.PageTable.Extend.{px-lt}

-- `PTE2PA(pa) | flags | perm`
abbrev pub word_of : (pa old perm : ℕ) → ℕ
word_of pa old perm = bit_or (bit_or (pte2pa pa) (pte_flags old)) perm

flags-bounds : (x : ℕ) → (pte_flags x / 2 ^ 14 % 2 ^ 36 ≡ 0) × (pte_flags x < 2 ^ 64)
unfolding pte_flags
flags-bounds x = (omega arith, omega arith)

pub pte2pa-bounds : (x : ℕ) → (pte2pa x < 2 ^ 50) × (pte2pa (pte2pa x) ≡ pte2pa x)
unfolding pte2pa
pte2pa-bounds x = (omega arith, omega arith)

or_div :
    (k a b c : ℕ)
    → bit_or (bit_or a b) c / 2 ^ k ≡ bit_or (bit_or (a / 2 ^ k) (b / 2 ^ k)) (c / 2 ^ k)
or_div k a b c = rw (bit_or-div k, bit_or-div k)

or_mod :
    (k a b c : ℕ)
    → bit_or (bit_or a b) c % 2 ^ k ≡ bit_or (bit_or (a % 2 ^ k) (b % 2 ^ k)) (c % 2 ^ k)
or_mod k a b c = rw (bit_or-mod k, bit_or-mod k)

or_zeros : (a b c : ℕ) → b ≡ 0 → c ≡ 0 → bit_or (bit_or a b) c ≡ a
or_zeros a b c hb hc = rw (hb, hc, bit_or-zero, bit_or-zero)

-- The word is valid and carries the physical page.
pub word_of_lem :
    (pa old perm : ℕ)
    → perm < 2 ^ 14
    → perm % 2 ≡ 1
    → (word_of pa old perm < 2 ^ 64)
      × (word_of pa old perm % 2 ≡ 1)
      × (pte2pa (word_of pa old perm) ≡ pte2pa pa)
word_of_lem pa old perm hp odd = (
  omega (arith, top),
  omega (arith, (bit_or-halves (bit_or (pte2pa pa) (pte_flags old)) perm).1),
  unfold pte2pa in omega (arith, field),
)
  where
    w : ℕ
    w = word_of pa old perm

    top : word_of pa old perm / 2 ^ 64 ≡ 0
    top =
        or_div 64 (pte2pa pa) (pte_flags old) perm
        ∙ or_zeros (pte2pa pa / 2 ^ 64) (pte_flags old / 2 ^ 64) (perm / 2 ^ 64)
            (omega (arith, (flags-bounds old).1)) (omega arith)
        ∙ omega (arith, (pte2pa-bounds pa).0)

    field : word_of pa old perm / 2 ^ 14 % 2 ^ 36 ≡ pte2pa pa / 2 ^ 14 % 2 ^ 36
    field =
        ap (λ (x : ℕ). x % 2 ^ 36) (or_div 14 (pte2pa pa) (pte_flags old) perm)
        ∙ or_mod 36 (pte2pa pa / 2 ^ 14) (pte_flags old / 2 ^ 14) (perm / 2 ^ 14)
        ∙ or_zeros (pte2pa pa / 2 ^ 14 % 2 ^ 36) (pte_flags old / 2 ^ 14 % 2 ^ 36)
            (perm / 2 ^ 14 % 2 ^ 36) (flags-bounds old).0 (omega arith)

-- The page number of a user address is its three indices.
pub px-page :
    (a b : ℕ)
    → a < max_va
    → b < max_va
    → px 2 a ≡ px 2 b
    → px 1 a ≡ px 1 b
    → px 0 a ≡ px 0 b
    → a / pg_size ≡ b / pg_size
unfolding px
px-page a b ha hb h₂ h₁ h₀ = omega arith

pub page-px :
    (a b : ℕ)
    → a / pg_size ≡ b / pg_size
    → (px 2 a ≡ px 2 b) × (px 1 a ≡ px 1 b) × (px 0 a ≡ px 0 b)
unfolding px
page-px a b h = (omega arith, omega arith, omega arith)

module _ {k : Kmem} {pt : ℕ} {own : ℕ → Role} {mid : ℕ → ℕ} {leaf : ℕ → ℕ → ℕ} {xs : List ℕ}
    (s : Space k pt own mid leaf xs) (i j : ℕ) (hi : i < 2048) (hj : j < 2048) (nz : mid i ≢ 0)
    (nzl : leaf i j ≢ 0) where
  pub table_page : (own (leaf i j) ≡ last i j) × InWindow (leaf i j)
  table_page = s.leaf_role i j hi hj nz nzl

  leaf_inj :
      (a b : ℕ)
      → a < 2048
      → b < 2048
      → mid a ≢ 0
      → leaf a b ≢ 0
      → leaf a b ≡ leaf i j
      → (a ≡ i) × (b ≡ j)
  leaf_inj a b ha hb nza nzla e = ground (arith, table_page, s.leaf_role a b ha hb nza nzla)

  -- A store to an entry of a last table keeps the address space well-formed.
  pub store-Space : (l v : ℕ) → l < 2048 → Space (set_entry k (leaf i j) l v) pt own mid leaf xs
  store-Space l v hl =
      let (role, win) = table_page in
      record {
        kmem =
            set_entry-IsKmem k (leaf i j) l v xs s.kmem win.page.aligned hl
              (ground (arith, role, s.free_role (leaf i j)));
        free_role = s.free_role;
        root_role = s.root_role;
        root_page = s.root_page;
        mid_entry = λ a ha.
            entry-set_ne k (leaf i j) l v pt a win.page.aligned s.root_page.page.aligned hl ha
              (inl (λ e. ground (arith, role, s.root_role)))
            ∙ s.mid_entry a ha;
        mid_role = s.mid_role;
        leaf_entry = λ a b ha hb nza.
            entry-set_ne k (leaf i j) l v (mid a) b win.page.aligned
              (s.mid_role a ha nza).1.page.aligned hl hb
              (inl (λ e. ground (arith, role, s.mid_role a ha nza)))
            ∙ s.leaf_entry a b ha hb nza;
        leaf_role = s.leaf_role;
      }

  -- It changes the translation of one page.
  pub store-pte :
      (va va' v : ℕ)
      → px 2 va ≡ i
      → px 1 va ≡ j
      → va < max_va
      → va' < max_va
      → v < 2 ^ 64
      → pte_of (set_entry k (leaf i j) (px 0 va) v) mid leaf va'
        ≡ (if va' / pg_size == va / pg_size then v else pte_of k mid leaf va')
  store-pte va va' v ei ej h h' hv = elim (Bool-cases (va' / pg_size == va / pg_size)) [
    | inl same ↦
        ground (arith, page-px va' va (ground arith), entry-set_self k (leaf i j) (px 0 va) v hv)
    | inr differ ↦ elim (Bool-cases (mid (px 2 va') == 0)) [
      | inl no_mid ↦ ground arith
      | inr has_mid ↦ elim (Bool-cases (leaf (px 2 va') (px 1 va') == 0)) [
        | inl no_leaf ↦ ground arith
        | inr has_leaf ↦
            let a = px 2 va' in
            let b = px 1 va' in
            let (role, win) =
              s.leaf_role a b (px-lt 2 va') (px-lt 1 va') (ground arith) (ground arith) in
            ground (
              arith,
              entry-set_ne k (leaf i j) (px 0 va) v (leaf a b) (px 0 va') table_page.1.page.aligned
                  win.page.aligned (px-lt 0 va) (px-lt 0 va')
                  (elsewhere (ground arith) (ground arith) (ground arith)),
            )
      ]
    ]
  ]
    where
      elsewhere :
          va' / pg_size ≢ va / pg_size
          → mid (px 2 va') ≢ 0
          → leaf (px 2 va') (px 1 va') ≢ 0
          → (leaf (px 2 va') (px 1 va') ≢ leaf i j) ⊎ (px 0 va' ≢ px 0 va)
      elsewhere ne nza nzla = elim (Bool-cases (px 0 va' == px 0 va)) [
        | inl same ↦ inl (λ e.
            let (ea, eb) = leaf_inj (px 2 va') (px 1 va') (px-lt 2 va') (px-lt 1 va') nza nzla e in
            ne (px-page va' va h' h (ea ∙ sym ei) (eb ∙ sym ej) (==→eq (px 0 va') (px 0 va) same)))
        | inr other_slot ↦ inr (==→ne (px 0 va') (px 0 va) other_slot)
      ]
