-- ===== src/Mm/PageTable/Tests.antt =====
-- A concrete address space with one page mapped at address 0, and copies from and to it.
use loos_lab.Mm.PageTable.StrChunk.{Ends}
use loos_lab.Mm.PageTable.CopyStr.{Arrives, copy_from_va_str_lem}
use loos_lab.Base.{
  ℕ, zero, suc, ◌+◌, ◌-◌, ◌*◌, ◌%◌, ◌≤◌, ◌<◌, ◌≡◌, refl, sym, ap, ◌∙◌, ◌≢◌, [], arith, ◌==◌,
  if◌then◌else◌,
}
use loos_lab.Base.Int.{pos}
use loos_lab.Base.Run.{done}
use loos_lab.Memory.{Mem, put, within}
use loos_lab.Memory.Words.{put64, get64, get64-put64_self, get64-put64_ne}
use loos_lab.Mm.Layout.{pg_size, pa2va, pte2pa, px}
use loos_lab.Mm.Memblock.{Kmem}
use loos_lab.Mm.Tests.{page₁, page₂, root_page, zeros, page₁-InWindow, page₂-InWindow}
use loos_lab.Mm.PageTable.{entry, copy_to_va, copy_from_va, copy_from_va_str}
use loos_lab.Mm.PageTable.Space.{Role, InWindow, Space, pte_of, root, middle, last, other}
use loos_lab.Mm.PageTable.Frame.{page_of, frame-Space, frame-pte}
use loos_lab.Mm.PageTable.Deliver.{Delivered}
use loos_lab.Mm.PageTable.CopyOut.{user_at, copy_to_va-Delivered}
use loos_lab.Mm.PageTable.CopyIn.{phys, pa2va_lem, copy_from_va_lem}

-- The entry of physical page 0xC000.
abbrev user_pte : ℕ
user_pte = 0xC193

abbrev rooted : Mem
rooted = put64 zeros root_page page₁

abbrev linked : Mem
linked = put64 rooted page₁ page₂

abbrev mapped : Kmem
mapped = record { mem = put64 linked page₂ user_pte; freelist = 0 }

abbrev owner : ℕ → Role
owner q =
    if q == root_page
    then root
    else if q == page₁
    then middle 0
    else if q == page₂
    then last 0 0
    else other

abbrev mid : ℕ → ℕ
mid zero = page₁
mid (suc i) = 0

abbrev leaf : ℕ → ℕ → ℕ
leaf zero zero = page₂
leaf zero (suc j) = 0
leaf (suc i) j = 0

blank : (a : ℕ) → get64 zeros a ≡ 0
unfolding get64
blank a = refl

root_entry : (i : ℕ) → i < 2048 → entry mapped.mem root_page i ≡ mid i
root_entry zero h =
    get64-put64_ne linked page₂ root_page user_pte (omega arith)
    ∙ get64-put64_ne rooted page₁ root_page page₂ (omega arith)
    ∙ get64-put64_self zeros root_page page₁ (omega arith)
root_entry (suc i) h =
    get64-put64_ne linked page₂ (root_page + 8 * suc i) user_pte (omega arith)
    ∙ get64-put64_ne rooted page₁ (root_page + 8 * suc i) page₂ (omega arith)
    ∙ get64-put64_ne zeros root_page (root_page + 8 * suc i) page₁ (omega arith)
    ∙ blank (root_page + 8 * suc i)

middle_entry : (j : ℕ) → j < 2048 → entry mapped.mem page₁ j ≡ leaf 0 j
middle_entry zero h =
    get64-put64_ne linked page₂ page₁ user_pte (omega arith)
    ∙ get64-put64_self rooted page₁ page₂ (omega arith)
middle_entry (suc j) h =
    get64-put64_ne linked page₂ (page₁ + 8 * suc j) user_pte (omega arith)
    ∙ get64-put64_ne rooted page₁ (page₁ + 8 * suc j) page₂ (omega arith)
    ∙ get64-put64_ne zeros root_page (page₁ + 8 * suc j) page₁ (omega arith)
    ∙ blank (page₁ + 8 * suc j)

mid_page : (i : ℕ) → mid i ≢ 0 → (owner (mid i) ≡ middle i) × InWindow (mid i)
mid_page zero nz = (refl, page₁-InWindow)
mid_page (suc i) nz = absurd (nz refl)

leaf_page : (i j : ℕ) → leaf i j ≢ 0 → (owner (leaf i j) ≡ last i j) × InWindow (leaf i j)
leaf_page zero zero nz = (refl, page₂-InWindow)
leaf_page zero (suc j) nz = absurd (nz refl)
leaf_page (suc i) j nz = absurd (nz refl)

leaf_word : (i j : ℕ) → j < 2048 → mid i ≢ 0 → entry mapped.mem (mid i) j ≡ leaf i j
leaf_word zero j h nz = middle_entry j h
leaf_word (suc i) j h nz = absurd (nz refl)

mapped-Space : Space mapped root_page owner mid leaf []
unfolding pa2va pte2pa
mapped-Space = record {
  kmem = record { chain = refl; distinct = tt };
  free_role = λ x h. absurd (ground (arith, h));
  root_role = refl;
  root_page = record {
    page = record { aligned = refl; not_null = omega arith; fits = omega arith };
    window = refl;
  };
  mid_entry = root_entry;
  mid_role = λ i h nz. mid_page i nz;
  leaf_entry = λ i j hi hj nz. leaf_word i j hj nz;
  leaf_role = λ i j hi hj nz nzl. leaf_page i j nzl;
}

low_pte : (va : ℕ) → va < 4 → pte_of mapped mid leaf va ≡ user_pte
unfolding px
low_pte va h = rw (at_two, at_one, at_zero) (get64-put64_self linked page₂ user_pte (omega arith))
  where
    at_two : px 2 va ≡ 0
    at_two = omega arith

    at_one : px 1 va ≡ 0
    at_one = omega arith

    at_zero : px 0 va ≡ 0
    at_zero = omega arith

abbrev buffer : ℕ
buffer = 0x9000000000100000

low_phys : (va a : ℕ) → va < 4 → buffer ≤ a → phys (pte_of mapped mid leaf va) va ≢ a
unfolding pte2pa
low_phys va a h lo =
    let pte = low_pte va h in
    let there = pa2va_lem (0xC000 + va % pg_size) (omega arith) in
    λ e. omega (arith, there, ap (λ (x : ℕ). phys x va) pte, e)

copy_from_va_lem_example :
    (k' : Kmem) × (copy_from_va mapped root_page buffer 0 4 ≡ done (pos 0, k'))
    × Space k' root_page owner mid leaf []
    × ((a : ℕ)
        → k'.mem a ≡ (
            if within buffer 4 a
            then mapped.mem (phys (pte_of mapped mid leaf (0 + (a - buffer))) (0 + (a - buffer)))
            else mapped.mem a))
copy_from_va_lem_example =
    copy_from_va_lem mapped mapped-Space buffer 0 4 (omega arith) (λ a lo hi. buffer_page a lo hi)
      (λ va lo hi. unfold pte2pa in rw (low_pte va hi) (omega arith, omega arith))
      (λ va a lo hi alo ahi. low_phys va a hi alo)
  where
    buffer_page : (a : ℕ) → buffer ≤ a → a < buffer + 4 → owner (page_of a) ≡ other
    buffer_page a lo hi = ground arith

low_place : (va : ℕ) → va < 4 → user_at mapped mid leaf va ≡ 0x900000000000C000 + va
unfolding pte2pa
low_place va h =
    ap (λ (pte : ℕ). phys pte va) (low_pte va h)
    ∙ omega (arith, pa2va_lem (0xC000 + va % pg_size) (omega arith))

copy_to_va-Delivered_example :
    (k' : Kmem) × (copy_to_va mapped root_page 0 buffer 4 ≡ done (pos 0, k'))
    × Space k' root_page owner mid leaf []
    × Delivered mapped.mem k'.mem (user_at mapped mid leaf) 0 buffer 4
copy_to_va-Delivered_example =
    copy_to_va-Delivered mapped mapped-Space 0 buffer 4 (omega arith)
      (λ va lo hi. rw (low_place va hi) (user_page va hi))
      (λ va lo hi. unfold pte2pa in rw (low_pte va hi) (omega arith, omega arith))
      (λ va b lo hi blo bhi. low_phys va b hi blo)
      (λ va va' lo hi lo' hi' e. omega (arith, low_place va hi, low_place va' hi', e))
  where
    user_page : (va : ℕ) → va < 4 → owner (page_of (0x900000000000C000 + va)) ≡ other
    user_page va h = ground arith

-- The user string "A" at address 0.
abbrev written : Kmem
written = record mapped { mem = put mapped.mem 0x900000000000C000 b'A' }

written_others : (a : ℕ) → owner (page_of a) ≢ other → written.mem a ≡ mapped.mem a
unfolding put
written_others a foreign = ground arith

written_pte : (va : ℕ) → va < 4 → pte_of written mid leaf va ≡ user_pte
written_pte va h = frame-pte mapped-Space written.mem written_others va ∙ low_pte va h

written-phys : (va : ℕ) → va < 4 → phys (pte_of written mid leaf va) va ≡ 0x900000000000C000 + va
unfolding pte2pa
written-phys va h =
    ap (λ (pte : ℕ). phys pte va) (written_pte va h)
    ∙ omega (arith, pa2va_lem (0xC000 + va % pg_size) (omega arith))

user_string : Ends (λ i. written.mem (phys (pte_of written mid leaf (0 + i)) (0 + i))) 1
unfolding put put64
user_string = (first, ap written.mem (written-phys 1 (omega arith)) ∙ refl)
  where
    first : (i : ℕ) → i < 1 → written.mem (phys (pte_of written mid leaf (0 + i)) (0 + i)) ≢ 0
    first zero h e = absurd (omega (arith, sym (ap written.mem (written-phys 0 (omega arith))) ∙ e))
    first (suc i) h e = absurd (omega arith)

copy_from_va_str_lem_example :
    (k' : Kmem) × (copy_from_va_str written root_page buffer 0 4 ≡ done (pos 0, k'))
    × Space k' root_page owner mid leaf []
    × Arrives mid leaf written k' buffer 0 (1 + 1)
copy_from_va_str_lem_example =
    copy_from_va_str_lem written (frame-Space mapped-Space written.mem written_others) buffer 0 4 1
      (omega arith) (omega arith) (λ a lo hi. buffer_page a lo hi)
      (λ va lo hi. unfold pte2pa in rw (written_pte va (omega arith)) (omega arith, omega arith))
      (λ va a lo hi alo ahi e. omega (arith, written-phys va (omega arith), e)) user_string
  where
    buffer_page : (a : ℕ) → buffer ≤ a → a < buffer + (1 + 1) → owner (page_of a) ≡ other
    buffer_page a lo hi = ground arith
