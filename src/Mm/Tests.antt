-- ===== src/Mm/Tests.antt =====
-- Concrete runs of the page allocator and the page tables: two free pages, and a root page without
-- entries.
use loos_lab.Base.Int.{pos}
use loos_lab.Base.Run.{done, halted}
use loos_lab.Memory.{Mem}
use loos_lab.Memory.Words.{put64, get64, get64-put64_self, get64-put64_ne}
use loos_lab.Base.{
  ℕ, ◌+◌, ◌*◌, ◌≡◌, refl, ◌∙◌, ◌↔◌, inl, inr, true, ◌||◌, List, [], ◌∷◌, arith, ◌==◌, if◌then◌else◌,
  ==→eq, Bool-cases, has,
}
use loos_lab.Mm.Layout.{pa2va, pte2pa, user_perm}
use loos_lab.Mm.Memblock.{Kmem, kalloc_page_memblock, freerange, kmalloc, kfree}
use loos_lab.Mm.Memblock.Laws.{IsKmem, kalloc_page_memblock-empty, kmalloc-kfree}
use loos_lab.Mm.Memblock.Range.{Between, freerange-IsKmem}
use loos_lab.Mm.PageTable.{map_single_page, va_to_pa}
use loos_lab.Mm.PageTable.Space.{Role, InWindow, Space, pte_of, free, root, other}
use loos_lab.Mm.PageTable.Lookup.{translate, va_to_pa-translate}
use loos_lab.Mm.PageTable.Map.{Mapped, map_single_page-Mapped}

abbrev pub page₁ : ℕ
page₁ = 0x9000000000004000

abbrev pub page₂ : ℕ
page₂ = 0x9000000000008000

abbrev pub root_page : ℕ
root_page = 0x9000000000010000

abbrev pub zeros : Mem
zeros a = 0

abbrev pub two_pages : Kmem
two_pages = record { mem = put64 (put64 zeros page₁ page₂) page₂ 0; freelist = page₁ }

pub page₁-InWindow : InWindow page₁
unfolding pa2va pte2pa
page₁-InWindow = record {
  page = record { aligned = refl; not_null = omega arith; fits = omega arith };
  window = refl;
}

pub page₂-InWindow : InWindow page₂
unfolding pa2va pte2pa
page₂-InWindow = record {
  page = record { aligned = refl; not_null = omega arith; fits = omega arith };
  window = refl;
}

pub two_pages-IsKmem : IsKmem two_pages (page₁ ∷ page₂ ∷ [])
two_pages-IsKmem = record {
  chain = (refl, page₁-InWindow.page, (first, page₂-InWindow.page, second));
  distinct = (refl, (refl, tt));
}
  where
    first : get64 two_pages.mem page₁ ≡ page₂
    first =
        get64-put64_ne (put64 zeros page₁ page₂) page₂ page₁ 0 (omega arith)
        ∙ get64-put64_self zeros page₁ page₂ (omega arith)

    second : get64 two_pages.mem page₂ ≡ 0
    second = get64-put64_self (put64 zeros page₁ page₂) page₂ 0 (omega arith)

abbrev owner : ℕ → Role
owner q = if q == root_page then root else if q == page₁ || q == page₂ then free else other

abbrev no_table : ℕ → ℕ
no_table i = 0

abbrev no_tables : ℕ → ℕ → ℕ
no_tables i j = 0

empty-Space : Space two_pages root_page owner no_table no_tables (page₁ ∷ page₂ ∷ [])
unfolding pa2va pte2pa
empty-Space = record {
  kmem = two_pages-IsKmem;
  free_role = λ x h. elim (Bool-cases (x == page₁)) [
    | inl one ↦ rw (==→eq x page₁ one) (refl, page₁-InWindow)
    | inr not_one ↦ elim (Bool-cases (x == page₂)) [
      | inl two ↦ rw (==→eq x page₂ two) (refl, page₂-InWindow)
      | inr not_two ↦ absurd (ground (arith, h, not_one, not_two))
    ]
  ];
  root_role = refl;
  root_page = record {
    page = record { aligned = refl; not_null = omega arith; fits = omega arith };
    window = refl;
  };
  mid_entry = λ i h.
      get64-put64_ne (put64 zeros page₁ page₂) page₂ (root_page + 8 * i) 0 (omega arith)
      ∙ get64-put64_ne zeros page₁ (root_page + 8 * i) page₂ (omega arith)
      ∙ blank (root_page + 8 * i);
  mid_role = λ i h nz. absurd (nz refl);
  leaf_entry = λ i j hi hj nz. absurd (nz refl);
  leaf_role = λ i j hi hj nz nzl. absurd (nz refl);
}
  where
    blank : (a : ℕ) → get64 zeros a ≡ 0
    blank a = unfold get64 in refl

map_single_page-Mapped_example :
    (k' : Kmem) × (map_single_page two_pages root_page 0x4000 0x8000 user_perm ≡ done k')
    × Mapped two_pages root_page owner (page₁ ∷ page₂ ∷ []) 0x4000 0x8000 k'
map_single_page-Mapped_example =
    map_single_page-Mapped two_pages root_page owner no_table no_tables page₁ page₂ [] empty-Space
      0x4000 0x8000 user_perm (omega arith) (omega arith) refl

va_to_pa-translate_example :
    va_to_pa two_pages root_page 0x4000
    ≡ done (translate (pte_of two_pages no_table no_tables 0x4000) 0x4000)
va_to_pa-translate_example = va_to_pa-translate empty-Space 0x4000 (omega arith)

kmalloc-kfree_example :
    (k₁ : Kmem) × (k₂ : Kmem) × (kmalloc two_pages (pos 128) ≡ done (page₁, k₁))
    × IsKmem k₁ (page₂ ∷ [])
    × (kfree k₁ page₁ ≡ done k₂)
    × IsKmem k₂ (page₁ ∷ page₂ ∷ [])
kmalloc-kfree_example = kmalloc-kfree two_pages (pos 128) page₁ (page₂ ∷ []) two_pages-IsKmem refl

abbrev no_pages : Kmem
no_pages = record { mem = zeros; freelist = 0 }

freerange-IsKmem_example :
    (ys : List ℕ) × IsKmem (freerange no_pages 1 60000) ys
    × ((x : ℕ) → (has x ys ≡ true) ↔ Between 1 60000 x)
freerange-IsKmem_example =
    freerange-IsKmem no_pages 1 60000 refl (omega arith) (omega arith) (omega arith)

kalloc_page_memblock-empty_example : kalloc_page_memblock no_pages ≡ halted
kalloc_page_memblock-empty_example =
    kalloc_page_memblock-empty no_pages (record { chain = refl; distinct = tt })
