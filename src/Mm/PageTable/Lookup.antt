-- ===== src/Mm/PageTable/Lookup.antt =====
-- `va_to_pa` on a well-formed address space, level by level.

use loos_lab.Mm.PageTable.Extend.{px-lt}
use loos_lab.Base.{
  ℕ, zero, suc, ◌+◌, ◌-◌, ◌*◌, ◌%◌, ◌^◌, ◌<◌, ◌≡◌, refl, sym, ap, ◌∙◌, ◌≢◌, ◌⊎◌, inl, inr, false,
  List, arith, ◌==◌, if◌then◌else◌, Bool-cases,
}
use loos_lab.Base.Run.{done}
use loos_lab.Memory.Words.{get64}
use loos_lab.Mm.Layout.{pg_size, pa2va, pte2pa, px, max_va}
use loos_lab.Mm.Memblock.{Kmem}
use loos_lab.Mm.PageTable.{walk_step, va_to_pte_pointer, va_to_pa}
use loos_lab.Mm.PageTable.Space.{Role, Space, pte_of}

-- What an entry makes of an address: 0 if the entry is not valid.
abbrev pub translate : (pte va : ℕ) → ℕ
translate pte va = if pte % 2 == 0 then 0 else (pte2pa pte + va % pg_size) % 2 ^ 64

pa2va-pa2va : (x : ℕ) → pa2va (pa2va x) ≡ pa2va x
unfolding pa2va
pa2va-pa2va x = ground arith

px_page : (level va : ℕ) → level < 3 → px level (va - va % pg_size) ≡ px level va
unfolding px
px_page zero va h = omega arith
px_page (suc zero) va h = omega arith
px_page (suc (suc zero)) va h = omega arith
px_page (suc (suc (suc l))) va h = absurd (omega arith)

module _ {k : Kmem} {pt : ℕ} {own : ℕ → Role} {mid : ℕ → ℕ} {leaf : ℕ → ℕ → ℕ} {xs : List ℕ}
    (s : Space k pt own mid leaf xs) where
  walk_root : (i : ℕ) → i < 2048 → walk_step k pt i false ≡ done (mid i, k)
  unfolding walk_step
  walk_root i hi = elim (Bool-cases (mid i == 0)) [
    | inl none_yet ↦ ground (arith, s.mid_entry i hi)
    | inr there ↦ ground (arith, s.mid_entry i hi, (s.mid_role i hi (ground arith)).1.window)
  ]

  walk_middle :
      (i j : ℕ) → i < 2048 → j < 2048 → mid i ≢ 0 → walk_step k (mid i) j false ≡ done (leaf i j, k)
  unfolding walk_step
  walk_middle i j hi hj nz = elim (Bool-cases (leaf i j == 0)) [
    | inl none_yet ↦ ground (arith, s.leaf_entry i j hi hj nz)
    | inr there ↦
        ground
          (arith, s.leaf_entry i j hi hj nz, (s.leaf_role i j hi hj nz (ground arith)).1.window)
  ]

  root_window : pa2va pt ≡ pt
  root_window = ap pa2va (sym s.root_page.window) ∙ pa2va-pa2va (pte2pa pt) ∙ s.root_page.window

  pointer :
      (va : ℕ)
      → va < max_va
      → (p : ℕ) × (va_to_pte_pointer k pt va false ≡ done (p, k))
        × (((p ≡ 0) × (pte_of k mid leaf va ≡ 0))
            ⊎ ((p ≢ 0) × (get64 k.mem p ≡ pte_of k mid leaf va)))
  unfolding va_to_pte_pointer
  pointer va h = elim (Bool-cases (mid (px 2 va) == 0)) [
    | inl none_yet ↦
        (0, ground (arith, root_window, walk_root (px 2 va) (px-lt 2 va)), inl (refl, ground arith))
    | inr there ↦
        let step₁ = walk_root (px 2 va) (px-lt 2 va) in
        let step₂ = walk_middle (px 2 va) (px 1 va) (px-lt 2 va) (px-lt 1 va) (ground arith) in
        elim (Bool-cases (leaf (px 2 va) (px 1 va) == 0)) [
          | inl none_yet ↦ (0, ground (arith, root_window, step₁, step₂), inl (refl, ground arith))
          | inr found ↦ (
            leaf (px 2 va) (px 1 va) + 8 * px 0 va,
            ground (arith, root_window, step₁, step₂),
            inr (ground arith, ground arith),
          )
        ]
  ]

  pte_of_page : (va : ℕ) → pte_of k mid leaf (va - va % pg_size) ≡ pte_of k mid leaf va
  pte_of_page va =
      rw (px_page 2 va (omega arith), px_page 1 va (omega arith), px_page 0 va (omega arith))

  -- On a well-formed address space `va_to_pa` answers, for every user address, what the entry for
  -- the address says, and changes nothing.
  pub va_to_pa-translate :
      (va : ℕ) → va < max_va → va_to_pa k pt va ≡ done (translate (pte_of k mid leaf va) va)
  unfolding va_to_pa
  va_to_pa-translate va h =
      let (p, eq, what) = pointer (va - va % pg_size) (omega arith) in
      ground (arith, eq, what, pte_of_page va)
