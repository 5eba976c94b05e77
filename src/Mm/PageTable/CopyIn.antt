-- ===== src/Mm/PageTable/CopyIn.antt =====
-- `copy_from_va` on a well-formed address space: bytes of user pages arrive in a kernel buffer.

use loos_lab.Libc.Block.Laws.{memmove-copied}
use loos_lab.Base.{
  ℕ, zero, suc, ◌+◌, ◌-◌, ◌*◌, ◌/◌, ◌%◌, ◌^◌, ◌≤◌, ◌<◌, min, ◌≡◌, refl, ap, ◌∙◌, ◌≢◌, ◌⊎◌, inl, inr,
  List, arith, if◌then◌else◌, Bool-cases,
}
use loos_lab.Base.Int.{pos}
use loos_lab.Base.Run.{done}
use loos_lab.Memory.{Mem, within, copied}
use loos_lab.Libc.Block.{memmove}
use loos_lab.Mm.Layout.{pg_size, pg_round_down, pa2va, pte2pa, max_va}
use loos_lab.Mm.Memblock.{Kmem}
use loos_lab.Mm.PageTable.{va_to_pa, copy_from_loop, copy_from_va}
use loos_lab.Mm.PageTable.Space.{Role, Space, pte_of, other}
use loos_lab.Mm.PageTable.Lookup.{va_to_pa-translate}
use loos_lab.Mm.PageTable.Store.{pte2pa-bounds, page-px}
use loos_lab.Mm.PageTable.Frame.{page_of, frame-Space, frame-pte}

-- Where the kernel finds the byte of the user address `va` that has the entry `pte`.
abbrev pub phys : (pte va : ℕ) → ℕ
phys pte va = pa2va (pte2pa pte + va % pg_size)

-- The entry is valid and its page is not page 0, which `va_to_pa` could not tell from no page.
abbrev pub Readable : ℕ → Type 0
Readable pte = (pte % 2 ≢ 0) × (pte2pa pte ≢ 0)

pub pa2va_lem : (x : ℕ) → x < 2 ^ 60 → pa2va x ≡ x + 2 ^ 60 + 2 ^ 63
unfolding pa2va
pa2va_lem x h = ground arith

-- In one page the bytes stay side by side.
pub phys-next : (pte va j : ℕ) → va % pg_size + j < pg_size → phys pte va + j ≡ phys pte (va + j)
phys-next pte va j h =
    let bound = (pte2pa-bounds pte).0 in
    let same : (va + j) % pg_size ≡ va % pg_size + j = omega arith in
    omega (
      arith,
      pa2va_lem (pte2pa pte + va % pg_size) (omega arith),
      pa2va_lem (pte2pa pte + (va + j) % pg_size) (omega arith),
      same,
    )

pub pte_of-page :
    (k : Kmem) (mid : ℕ → ℕ) (leaf : ℕ → ℕ → ℕ) (a b : ℕ)
    → a / pg_size ≡ b / pg_size
    → pte_of k mid leaf a ≡ pte_of k mid leaf b
pte_of-page k mid leaf a b h = let (two, one, zeroth) = page-px a b h in rw (two, one, zeroth) refl

-- A round copies at least a byte, stays in the page, and is the last one or ends at the next page.
pub chunk_lem :
    (va len : ℕ)
    → 0 < len
    → let n = min (pg_size - (va - pg_round_down va)) len in
      (0 < n)
      × (n ≤ len)
      × (va - pg_round_down va ≡ va % pg_size)
      × (va % pg_size + n ≤ pg_size)
      × ((n ≡ len) ⊎ (pg_round_down va + pg_size ≡ va + n))
      × (pg_round_down va ≤ va)
unfolding pg_round_down
chunk_lem va len h = (omega arith, omega arith, omega arith, omega arith, omega arith, omega arith)

-- A first piece of `n` bytes and the bytes behind it make the whole; `at va` is where the byte of the
-- user address `va` stands.
pub merge_lem :
    (m₀ m m' : Mem) (at : ℕ → ℕ) (dst srcva next len n : ℕ)
    → 0 < n
    → n ≤ len
    → (n ≡ len) ⊎ (next ≡ srcva + n)
    → ((a : ℕ) → m a ≡ (if within dst n a then m₀ (at srcva + (a - dst)) else m₀ a))
    → ((j : ℕ) → j < n → at srcva + j ≡ at (srcva + j))
    → ((a : ℕ)
        → m' a ≡ (if within (dst + n) (len - n) a then m (at (next + (a - (dst + n)))) else m a))
    → ((va a : ℕ) → srcva ≤ va → va < srcva + len → dst ≤ a → a < dst + len → at va ≢ a)
    → (a : ℕ) → m' a ≡ (if within dst len a then m₀ (at (srcva + (a - dst))) else m₀ a)
merge_lem m₀ m m' at dst srcva next len n some_bytes le turn moved side rest apart a =
    elim (Bool-cases (within dst n a)) [
      | inl first ↦ ground (arith, rest a, moved a, side (a - dst))
      | inr not_first ↦ elim (Bool-cases (within (dst + n) (len - n) a)) [
        | inl behind ↦
            let va = srcva + (a - dst) in
            let there : next + (a - (dst + n)) ≡ va = ground (arith, turn) in
            let kept : m (at va) ≡ m₀ (at va) =
              ground (arith, moved (at va), apart va (at va) (omega arith) (ground arith)) in
            rest a ∙ rw (behind, there) (kept ∙ ground arith)
        | inr outside ↦ ground (arith, rest a, moved a)
      ]
    ]

module _ {pt : ℕ} {own : ℕ → Role} {mid : ℕ → ℕ} {leaf : ℕ → ℕ → ℕ} {xs : List ℕ} where
  -- The page of a readable address is found.
  pub round_page :
      (k : Kmem)
      → Space k pt own mid leaf xs
      → (va : ℕ) → va < max_va
      → Readable (pte_of k mid leaf va)
      → va_to_pa k pt (pg_round_down va) ≡ done (pte2pa (pte_of k mid leaf va))
  unfolding pg_round_down
  round_page k s va h ok =
      let va0 = va / pg_size * pg_size in
      let same = pte_of-page k mid leaf va0 va (omega arith) in
      let start : va0 % pg_size ≡ 0 = omega arith in
      ground (
        arith,
        va_to_pa-translate s va0 (omega arith),
        same,
        ok,
        start,
        pte2pa-bounds (pte_of k mid leaf va),
      )

  copied_from :
      (f : ℕ) (k : Kmem)
      → Space k pt own mid leaf xs
      → (dst srcva len : ℕ) → len < f
      → srcva + len ≤ max_va
      → ((a : ℕ) → dst ≤ a → a < dst + len → own (page_of a) ≡ other)
      → ((va : ℕ) → srcva ≤ va → va < srcva + len → Readable (pte_of k mid leaf va))
      → ((va a : ℕ)
          → srcva ≤ va
          → va < srcva + len
          → dst ≤ a
          → a < dst + len
          → phys (pte_of k mid leaf va) va ≢ a)
      → (k' : Kmem) × (copy_from_loop f k pt dst srcva len ≡ done (pos 0, k'))
        × Space k' pt own mid leaf xs
        × ((a : ℕ)
            → k'.mem a ≡ (
                if within dst len a
                then k.mem (phys (pte_of k mid leaf (srcva + (a - dst))) (srcva + (a - dst)))
                else k.mem a))
  unfolding copy_from_loop
  copied_from zero k s dst srcva len fuel top mine ok apart = absurd (omega arith)
  copied_from (suc f) k s dst srcva zero fuel top mine ok apart =
      (k, ground arith, s, λ a. ground arith)
  copied_from (suc f) k s dst srcva (suc l) fuel top mine ok apart =
      let len = suc l in
      let va0 = pg_round_down srcva in
      let n = min (pg_size - (srcva - va0)) len in
      let pte = pte_of k mid leaf srcva in
      let found = round_page k s srcva (omega arith) (ok srcva (omega arith) (omega arith)) in
      let m : Mem = (memmove k.mem dst (pa2va (pte2pa pte + (srcva - va0))) n).0 in
      let (some_bytes, le, off, room, turn, down) = chunk_lem srcva len (omega arith) in
      let base : pa2va (pte2pa pte + (srcva - va0)) ≡ phys pte srcva =
        ap (λ (o : ℕ). pa2va (pte2pa pte + o)) off in
      let moved : (a : ℕ)
          → m a ≡ (if within dst n a then k.mem (phys pte srcva + (a - dst)) else k.mem a) =
        λ a.
          memmove-copied k.mem dst (pa2va (pte2pa pte + (srcva - va0))) n a
          ∙ (unfold copied in ground (arith, base)) in
      let same : (a : ℕ) → own (page_of a) ≢ other → m a ≡ k.mem a =
        λ a foreign. ground (arith, moved a, mine a, le) in
      let s₁ = frame-Space s m same in
      let pte_same = frame-pte s m same in
      let (k', eq, s', rest) =
        copied_from f (record k { mem = m }) s₁ (dst + n) (va0 + pg_size) (len - n) (omega arith)
          (omega (arith, turn, top)) (λ a lo hi. mine a (omega arith) (omega arith))
          (λ va lo hi.
            ground (arith, pte_same va, ok va (omega (arith, turn)) (omega (arith, turn))))
          (λ va a lo hi alo ahi. ground (
            arith,
            pte_same va,
            apart va a (omega (arith, turn)) (omega (arith, turn)) (omega arith) (omega arith),
          )) in
      (
        k',
        ground (arith, found, ok srcva (omega arith) (omega arith), eq),
        s',
        merge_lem k.mem m k'.mem (λ va. phys (pte_of k mid leaf va) va) dst srcva (va0 + pg_size)
            len n some_bytes le turn moved
            (λ j lt.
              phys-next pte srcva j (omega (arith, room))
              ∙ ap (λ (e : ℕ). phys e (srcva + j))
                  (pte_of-page k mid leaf srcva (srcva + j) (omega (arith, room))))
            (λ a. ground (arith, rest a, pte_same (va0 + pg_size + (a - (dst + n))))) apart,
      )

  -- `copy_from_va` from readable user pages into a buffer of other pages, with no source byte in the
  -- buffer, returns 0, leaves the address space well-formed, puts the byte of each user address at its
  -- place in the buffer, and writes nowhere else.
  pub copy_from_va_lem :
      (k : Kmem)
      → Space k pt own mid leaf xs
      → (dst srcva len : ℕ) → srcva + len ≤ max_va
      → ((a : ℕ) → dst ≤ a → a < dst + len → own (page_of a) ≡ other)
      → ((va : ℕ) → srcva ≤ va → va < srcva + len → Readable (pte_of k mid leaf va))
      → ((va a : ℕ)
          → srcva ≤ va
          → va < srcva + len
          → dst ≤ a
          → a < dst + len
          → phys (pte_of k mid leaf va) va ≢ a)
      → (k' : Kmem) × (copy_from_va k pt dst srcva len ≡ done (pos 0, k'))
        × Space k' pt own mid leaf xs
        × ((a : ℕ)
            → k'.mem a ≡ (
                if within dst len a
                then k.mem (phys (pte_of k mid leaf (srcva + (a - dst))) (srcva + (a - dst)))
                else k.mem a))
  unfolding copy_from_va
  copy_from_va_lem k s dst srcva len top mine ok apart =
      copied_from (len + 1) k s dst srcva len (omega arith) top mine ok apart
