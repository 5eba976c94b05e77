-- ===== src/Mm/Memblock/Range.antt =====
-- `freerange` of mm/memblock.c: the pages that the allocator starts with.

use loos_lab.Base.{
  ℕ, zero, suc, ◌+◌, ◌*◌, ◌/◌, ◌%◌, ◌^◌, ◌≤◌, ◌<◌, ◌≡◌, refl, ◌≢◌, ◌↔◌, ◌⊎◌, inl, inr, true, false,
  List, [], ◌∷◌, arith, leb, ◌==◌, Bool-cases, has,
}
use loos_lab.Mm.Layout.{pg_size, pg_round_down, pg_round_up}
use loos_lab.Mm.Memblock.{Kmem, kfree_page_memblock, free_loop, freerange}
use loos_lab.Mm.Memblock.Laws.{IsPage, IsKmem, kfree_page_memblock-IsKmem}

-- `x` is a whole aligned page between `lo` and `hi`.
pub record Between (lo hi x : ℕ) : Type 0 where
  pub aligned : x % pg_size ≡ 0
  pub above : lo ≤ x
  pub below : x + pg_size ≤ hi

-- All members of `xs` lie below `p`.
abbrev Under : ℕ → List ℕ → Type 0
Under p [] = Unit
Under p (x ∷ xs) = (x < p) × Under p xs

has-Under : (p : ℕ) (xs : List ℕ) → Under p xs → has p xs ≡ false
has-Under p [] u = refl
has-Under p (x ∷ xs) u = ground (arith, has-Under p xs u.1)

Under-mono : (p q : ℕ) (xs : List ℕ) → p ≤ q → Under p xs → Under q xs
Under-mono p q [] le u = tt
Under-mono p q (x ∷ xs) le u = (omega arith, Under-mono p q xs le u.1)

Between-step :
    (p hi x : ℕ)
    → p % pg_size ≡ 0
    → p + pg_size ≤ hi
    → Between p hi x ↔ ((x ≡ p) ⊎ Between (p + pg_size) hi x)
Between-step p hi x al fits = (λ b. to b (omega (arith, b.aligned, b.above)), from)
  where
    to : Between p hi x → (x ≡ p) ⊎ (p + pg_size ≤ x) → (x ≡ p) ⊎ Between (p + pg_size) hi x
    to b (inl e) = inl e
    to b (inr le) = inr (record { aligned = b.aligned; above = le; below = b.below })

    from : (x ≡ p) ⊎ Between (p + pg_size) hi x → Between p hi x
    from (inl e) = record { aligned = rw e al; above = omega arith; below = rw e fits }
    from (inr b) = record { aligned = b.aligned; above = omega (arith, b.above); below = b.below }

free_loop-IsKmem :
    (n : ℕ) (k : Kmem) (p pa_end : ℕ) (xs : List ℕ)
    → IsKmem k xs
    → Under p xs
    → p % pg_size ≡ 0
    → p ≢ 0
    → pa_end ≤ 2 ^ 64
    → pa_end < p + (n + 1) * pg_size
    → (ys : List ℕ) × IsKmem (free_loop n k p pa_end) ys
      × ((x : ℕ) → (has x ys ≡ true) ↔ ((has x xs ≡ true) ⊎ Between p pa_end x))
unfolding free_loop
free_loop-IsKmem zero k p pa_end xs is under al nz top fuel = (
  xs,
  is,
  λ x. (inl, λ h. elim h [ inl old ↦ old | inr b ↦ absurd (omega (arith, b.above, b.below)) ]),
)
free_loop-IsKmem (suc n) k p pa_end xs is under al nz top fuel =
    elim (Bool-cases (leb (p + pg_size) pa_end)) [
      | inl more ↦
          let fits : p + pg_size ≤ pa_end = ground arith in
          let page : IsPage p = record { aligned = al; not_null = nz; fits = omega arith } in
          let off = has-Under p xs under in
          let is' = (kfree_page_memblock-IsKmem k p xs is page off).0 in
          let (ys, done', mem) =
            free_loop-IsKmem n (kfree_page_memblock k p) (p + pg_size) pa_end (p ∷ xs) is'
              (omega arith, Under-mono p (p + pg_size) xs (omega arith) under) (omega arith)
              (omega arith) top (omega arith) in
          rw more
            (ys, done', λ x. (λ h. widen x fits ((mem x).0 h), λ h. (mem x).1 (narrow x fits h)))
      | inr stop ↦ rw stop (
        xs,
        is,
        λ x. (
          inl,
          λ h. elim h [ inl old ↦ old | inr b ↦ absurd (ground (arith, b.above, b.below)) ],
        ),
      )
    ]
  where
    widen :
        (x : ℕ)
        → p + pg_size ≤ pa_end
        → (has x (p ∷ xs) ≡ true) ⊎ Between (p + pg_size) pa_end x
        → (has x xs ≡ true) ⊎ Between p pa_end x
    widen x fits (inr b) = inr ((Between-step p pa_end x al fits).1 (inr b))
    widen x fits (inl h) = elim (Bool-cases (x == p)) [
      | inl e ↦ inr ((Between-step p pa_end x al fits).1 (inl (ground arith)))
      | inr ne ↦ inl (ground arith)
    ]

    narrow :
        (x : ℕ)
        → p + pg_size ≤ pa_end
        → (has x xs ≡ true) ⊎ Between p pa_end x
        → (has x (p ∷ xs) ≡ true) ⊎ Between (p + pg_size) pa_end x
    narrow x fits (inl old) = inl (ground arith)
    narrow x fits (inr b) = elim ((Between-step p pa_end x al fits).0 b) [
      | inl e ↦ inl (ground arith)
      | inr b' ↦ inr b'
    ]

round_above :
    (a p hi x : ℕ) → a ≤ p → p < a + pg_size → p % pg_size ≡ 0 → Between p hi x ↔ Between a hi x
round_above a p hi x le lt al = (
  λ b. record { aligned = b.aligned; above = omega (arith, b.above); below = b.below },
  λ b. record { aligned = b.aligned; above = omega (arith, b.above, b.aligned); below = b.below },
)

round_up_lem :
    (a : ℕ)
    → a + pg_size ≤ 2 ^ 64
    → (a ≤ pg_round_up a) × (pg_round_up a < a + pg_size) × (pg_round_up a % pg_size ≡ 0)
unfolding pg_round_up pg_round_down
round_up_lem a h = omega arith

-- Started with no free page, `freerange` leaves the allocator with exactly the aligned pages that
-- lie whole between its two addresses, each once.
pub freerange-IsKmem :
    (k : Kmem) (pa_start pa_end : ℕ)
    → k.freelist ≡ 0
    → 0 < pa_start
    → pa_start + pg_size ≤ 2 ^ 64
    → pa_end ≤ 2 ^ 64
    → (ys : List ℕ) × IsKmem (freerange k pa_start pa_end) ys
      × ((x : ℕ) → (has x ys ≡ true) ↔ Between pa_start pa_end x)
unfolding freerange
freerange-IsKmem k pa_start pa_end empty nonzero low top =
    let (le, lt, al) = round_up_lem pa_start low in
    let p = pg_round_up pa_start in
    let (ys, is, mem) =
      free_loop-IsKmem (pa_end / pg_size) k p pa_end [] (record { chain = empty; distinct = tt }) tt
        al (omega (arith, le)) top (omega arith) in
    (
      ys,
      is,
      λ x. (
        λ h. elim ((mem x).0 h) [
          | inl none_yet ↦ cc
          | inr b ↦ (round_above pa_start p pa_end x le lt al).0 b
        ],
        λ b. (mem x).1 (inr ((round_above pa_start p pa_end x le lt al).1 b)),
      ),
    )
