-- ===== src/Mm/PageTable/Map.antt =====
-- `__map_single_page` as a change of the translation that `va_to_pa` computes.

use loos_lab.Memory.Words.{put64_off}
use mathlib.Core.Path.{}
use loos_lab.Base.{
  ℕ, ◌+◌, ◌*◌, ◌/◌, ◌%◌, ◌^◌, ◌≤◌, ◌<◌, ◌≡◌, refl, ◌∙◌, ◌≢◌, List, [], ◌∷◌, arith, ◌==◌,
  if◌then◌else◌, length,
}
use loos_lab.Base.Run.{done}
use loos_lab.Mm.Layout.{pg_size, pte2pa, px, max_va}
use loos_lab.Mm.Memblock.{Kmem}
use loos_lab.Mm.PageTable.{entry, set_entry, descend, map_single_page, va_to_pa}
use loos_lab.Mm.PageTable.Space.{Role, Space, other}
use loos_lab.Mm.PageTable.Extend.{px-lt, Extended, descend_root, descend_middle}
use loos_lab.Mm.PageTable.Lookup.{translate, va_to_pa-translate}
use loos_lab.Mm.PageTable.Store.{
  word_of, pte2pa-bounds, word_of_lem, table_page, store-Space, store-pte,
}

-- The state after a page was mapped: the address space is well-formed, at most two free pages are used
-- up, `va_to_pa` answers the new page for every address of the page of `va` and what it answered
-- before for all others, and the pages of other users keep their bytes.
pub record Mapped (k : Kmem) (pt : ℕ) (own : ℕ → Role) (xs : List ℕ) (va pa : ℕ) (k' : Kmem)
    : Type 0 where
  pub own' : ℕ → Role
  pub mid' : ℕ → ℕ
  pub leaf' : ℕ → ℕ → ℕ
  pub xs' : List ℕ
  pub space : Space k' pt own' mid' leaf' xs'
  pub fewer : length xs ≤ length xs' + 2
  pub translated :
      (va' : ℕ)
      → va' < max_va
      → va_to_pa k' pt va' ≡ (
          if va' / pg_size == va / pg_size
          then done (pte2pa pa + va' % pg_size)
          else va_to_pa k pt va')
  pub bytes :
      (p a : ℕ) → p % pg_size ≡ 0 → own p ≡ other → p ≤ a → a < p + pg_size → k'.mem a ≡ k.mem a
  pub roles : (p : ℕ) → own p ≡ other → own' p ≡ other

second_round :
    (k : Kmem) (pt : ℕ) (own : ℕ → Role) (mid : ℕ → ℕ) (leaf : ℕ → ℕ → ℕ) (xs : List ℕ)
    → Space k pt own mid leaf xs
    → 1 ≤ length xs
    → (i j : ℕ) → i < 2048
    → j < 2048
    → mid i ≢ 0
    → (e : Extended k pt own mid leaf xs) × (descend k (mid i) j ≡ done (e.leaf' i j, e.k'))
      × (e.mid' i ≢ 0)
      × (e.leaf' i j ≢ 0)
second_round k pt own mid leaf [] s h i j hi hj nz = absurd (omega arith)
second_round k pt own mid leaf (x ∷ xs) s h i j hi hj nz = descend_middle x xs s i j hi hj nz

new_translation :
    (w pa va : ℕ) → w % 2 ≡ 1 → pte2pa w ≡ pte2pa pa → translate w va ≡ pte2pa pa + va % pg_size
new_translation w pa va odd same = ground (arith, (pte2pa-bounds pa).0)

-- With two free pages at hand, `__map_single_page` returns, and maps the page of `va` to that of `pa`
-- and nothing else; the permission bits include the valid bit and stay below bit 14.
pub map_single_page-Mapped :
    (k : Kmem) (pt : ℕ) (own : ℕ → Role) (mid : ℕ → ℕ) (leaf : ℕ → ℕ → ℕ) (x y : ℕ) (xs : List ℕ)
    → Space k pt own mid leaf (x ∷ y ∷ xs)
    → (va pa perm : ℕ) → va < max_va
    → perm < 2 ^ 14
    → perm % 2 ≡ 1
    → (k' : Kmem) × (map_single_page k pt va pa perm ≡ done k')
      × Mapped k pt own (x ∷ y ∷ xs) va pa k'
unfolding map_single_page
map_single_page-Mapped k pt own mid leaf x y xs s va pa perm h hp odd =
    let i = px 2 va in
    let j = px 1 va in
    let (e₁, eq₁, nz₁) = descend_root x (y ∷ xs) s i (px-lt 2 va) in
    let (e₂, eq₂, nz₂, nzl) =
      second_round e₁.k' pt e₁.own' e₁.mid' e₁.leaf' e₁.xs' e₁.space (omega (arith, e₁.fewer)) i j
        (px-lt 2 va) (px-lt 1 va) nz₁ in
    let t = e₂.leaf' i j in
    let old = entry e₂.k'.mem t (px 0 va) in
    let w = word_of pa old perm in
    let (small, valid, page) = word_of_lem pa old perm hp odd in
    let k' = set_entry e₂.k' t (px 0 va) w in
    let (role, win) = table_page e₂.space i j (px-lt 2 va) (px-lt 1 va) nz₂ nzl in
    let sp = store-Space e₂.space i j (px-lt 2 va) (px-lt 1 va) nz₂ nzl (px 0 va) w (px-lt 0 va) in
    (
      k',
      ground (arith, eq₁, eq₂),
      record {
        own' = e₂.own';
        mid' = e₂.mid';
        leaf' = e₂.leaf';
        xs' = e₂.xs';
        space = sp;
        fewer = omega (arith, e₁.fewer, e₂.fewer);
        translated = λ va' h'. ground (
          arith,
          va_to_pa-translate sp va' h',
          va_to_pa-translate s va' h',
          store-pte e₂.space i j (px-lt 2 va) (px-lt 1 va) nz₂ nzl va va' w refl refl h h' small,
          e₂.ptes va',
          e₁.ptes va',
          new_translation w pa va' valid page,
        );
        bytes = λ p a al o lo hi'.
            let apart : p ≢ t = λ e. ground (arith, role, e₂.roles p (e₁.roles p o)) in
            put64_off e₂.k'.mem (t + 8 * px 0 va) w a
              (omega (arith, al, win.page.aligned, px-lt 0 va, apart))
            ∙ e₂.bytes p a al (e₁.roles p o) lo hi'
            ∙ e₁.bytes p a al o lo hi';
        roles = λ p o. e₂.roles p (e₁.roles p o);
      },
    )
