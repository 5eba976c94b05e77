-- ===== src/Mm/PageTable/CopyStr.antt =====
-- `copy_from_va_str` of mm/n_vm.c on a well-formed address space: a user string arrives in a kernel buffer.
use loos_lab.Base.{
  ℕ, zero, suc, ◌+◌, ◌-◌, ◌≤◌, ◌<◌, min, ◌≡◌, sym, ap, ◌∙◌, ◌≢◌, inl, inr, List, arith, ltb,
  if◌then◌else◌, ltb→lt, ltb→le, Bool-cases,
}
use loos_lab.Base.Int.{pos}
use loos_lab.Base.Run.{done}
use loos_lab.Memory.{Mem, within, copied, ◌≗◌}
use loos_lab.Mm.Layout.{pg_size, pg_round_down, pa2va, pte2pa, max_va}
use loos_lab.Mm.Memblock.{Kmem}
use loos_lab.Mm.PageTable.{copy_str_loop, copy_from_va_str}
use loos_lab.Mm.PageTable.Space.{Role, Space, pte_of, other}
use loos_lab.Mm.PageTable.Frame.{page_of, frame-Space, frame-pte}
use loos_lab.Mm.PageTable.CopyIn.{
  phys, Readable, phys-next, pte_of-page, chunk_lem, merge_lem, round_page,
}
use loos_lab.Mm.PageTable.StrChunk.{
  Ends, chunk_whole, str_chunk-Ends, moved_to, last_round, next_round, rest_lem,
}

-- The bytes of a page that a round reads.
abbrev chunk : (srcva max : ℕ) → ℕ
chunk srcva max = min (pg_size - (srcva - pg_round_down srcva)) max

module _ (mid : ℕ → ℕ) (leaf : ℕ → ℕ → ℕ) where
  abbrev char_at : Kmem → (srcva i : ℕ) → ℕ
  char_at k srcva i = phys (pte_of k mid leaf (srcva + i)) (srcva + i)

  -- The memory after `n` bytes from `srcva` on came to `dst`.
  abbrev pub Arrives : (k k' : Kmem) → (dst srcva n : ℕ) → Type 0
  Arrives k k' dst srcva n =
      (a : ℕ) → k'.mem a ≡ (if within dst n a then k.mem (char_at k srcva (a - dst)) else k.mem a)

  -- Addresses and entries of one page.
  page_chars :
      (k : Kmem) (srcva max : ℕ)
      → 0 < max
      → (i : ℕ) → i < chunk srcva max
      → pa2va (pte2pa (pte_of k mid leaf srcva) + (srcva - pg_round_down srcva)) + i
        ≡ char_at k srcva i
  page_chars k srcva max some_max i lt =
      let pte = pte_of k mid leaf srcva in
      let (some_bytes, le, off, in_page, turn, down) = chunk_lem srcva max some_max in
      ap (λ (o : ℕ). pa2va (pte2pa pte + o) + i) off
      ∙ phys-next pte srcva i (omega (arith, in_page))
      ∙ ap (λ (e : ℕ). phys e (srcva + i))
          (pte_of-page k mid leaf srcva (srcva + i) (omega (arith, in_page)))

module _ {pt : ℕ} {own : ℕ → Role} {mid : ℕ → ℕ} {leaf : ℕ → ℕ → ℕ} {xs : List ℕ} (k : Kmem)
    (s : Space k pt own mid leaf xs) (f dst srcva max len : ℕ) (room : len < max)
    (top : srcva + len < max_va)
    (mine : (a : ℕ) → dst ≤ a → a < dst + (len + 1) → own (page_of a) ≡ other)
    (ok : (va : ℕ) → srcva ≤ va → va < srcva + (len + 1) → Readable (pte_of k mid leaf va))
    (apart : (va a : ℕ)
      → srcva ≤ va
      → va < srcva + (len + 1)
      → dst ≤ a
      → a < dst + (len + 1)
      → phys (pte_of k mid leaf va) va ≢ a)
    (ends : Ends (λ i. k.mem (char_at mid leaf k srcva i)) len) where
  end_round :
      len < chunk srcva max
      → (k' : Kmem) × (copy_str_loop (suc f) k pt dst srcva max ≡ done (pos 0, k'))
        × Space k' pt own mid leaf xs
        × Arrives mid leaf k k' dst srcva (len + 1)
  end_round short =
      let pte = pte_of k mid leaf srcva in
      let p = pa2va (pte2pa pte + (srcva - pg_round_down srcva)) in
      let readable = ok srcva (omega arith) (omega arith) in
      let found = round_page k s srcva (omega arith) readable in
      let at = page_chars mid leaf k srcva max (omega arith) in
      let (m, eq, same) =
        str_chunk-Ends (chunk srcva max) len k.mem p dst max short
          (
            (λ i lt e. ends.0 i lt (sym (ap k.mem (at i (omega arith))) ∙ e)),
            ap k.mem (at len short) ∙ ends.1,
          )
          (λ i j hi hj e.
            apart (srcva + i) (dst + j) (omega arith) (omega arith) (omega arith) (omega arith)
              (sym (at i (omega arith)) ∙ e)) in
      (
        record k { mem = m },
        last_round f k pt dst srcva max (pte2pa pte) (dst + len) (max - len) m (omega arith) found
            readable.1 eq,
        frame-Space s m (λ a foreign. unfold copied in ground (arith, same a, mine a)),
        λ a.
            same a
            ∙ moved_to k.mem (char_at mid leaf k srcva) p dst (len + 1) (λ i lt. at i (omega arith))
                a,
      )

  module _ (long : chunk srcva max ≤ len) (m : Mem)
      (moved : m
        ≗ copied k.mem dst
            (pa2va (pte2pa (pte_of k mid leaf srcva) + (srcva - pg_round_down srcva)))
            (chunk srcva max)) where
    turn_lem : pg_round_down srcva + pg_size ≡ srcva + chunk srcva max
    turn_lem =
        let (some_bytes, le, off, in_page, turn, down) = chunk_lem srcva max (omega arith) in
        omega (arith, turn, long, room)

    others_kept : (a : ℕ) → own (page_of a) ≢ other → m a ≡ k.mem a
    others_kept a foreign = unfold copied in ground (arith, moved a, mine a, long)

    chars_kept :
        (va : ℕ)
        → srcva ≤ va
        → va < srcva + (len + 1)
        → m (phys (pte_of (record k { mem = m }) mid leaf va) va)
          ≡ k.mem (phys (pte_of k mid leaf va) va)
    chars_kept va lo hi =
        ap (λ (e : ℕ). m (phys e va)) (frame-pte s m others_kept va)
        ∙ (unfold copied in
            ground (
              arith,
              moved (phys (pte_of k mid leaf va) va),
              apart va (phys (pte_of k mid leaf va) va),
              long,
            ))

    -- What the later rounds need, and what they bring.
    rest-Ends :
        Ends
          (λ i. m (char_at mid leaf (record k { mem = m }) (pg_round_down srcva + pg_size) i))
          (len - chunk srcva max)
    rest-Ends =
        let n = chunk srcva max in
        let behind : (i : ℕ) → srcva + (n + i) ≡ pg_round_down srcva + pg_size + i =
          λ i. omega (arith, turn_lem) in
        (
          (λ i lt e. ends.0 (n + i) (omega arith) (
              ap (λ (va : ℕ). k.mem (phys (pte_of k mid leaf va) va)) (behind i)
              ∙ sym (
                  chars_kept (pg_round_down srcva + pg_size + i) (omega (arith, turn_lem))
                    (omega (arith, turn_lem)))
              ∙ e)),
          chars_kept (pg_round_down srcva + pg_size + (len - n)) (omega (arith, turn_lem))
                (omega (arith, turn_lem, long))
              ∙ ap (λ (va : ℕ). k.mem (phys (pte_of k mid leaf va) va))
                  (omega (arith, turn_lem, long))
              ∙ ends.1,
        )

    joined :
        (k' : Kmem)
        → Arrives mid leaf
            (record k { mem = m })
            k'
            (dst + chunk srcva max)
            (pg_round_down srcva + pg_size)
            (len - chunk srcva max + 1)
        → Arrives mid leaf k k' dst srcva (len + 1)
    joined k' rest =
        let n = chunk srcva max in
        let at = page_chars mid leaf k srcva max (omega arith) in
        let off = (chunk_lem srcva max (omega arith)).2 in
        let base : pa2va (pte2pa (pte_of k mid leaf srcva) + (srcva - pg_round_down srcva))
            ≡ phys (pte_of k mid leaf srcva) srcva =
          ap (λ (o : ℕ). pa2va (pte2pa (pte_of k mid leaf srcva) + o)) off in
        merge_lem k.mem m k'.mem (λ va. phys (pte_of k mid leaf va) va) dst srcva
          (pg_round_down srcva + pg_size) (len + 1) n (chunk_lem srcva max (omega arith)).0
          (omega arith) (inr turn_lem) (λ a. moved a ∙ (unfold copied in ground (arith, base)))
          (λ j lt. sym (ap (λ (b : ℕ). b + j) base) ∙ at j lt)
          (rest_lem m k'.mem (λ va. phys (pte_of k mid leaf va) va)
            (λ va. phys (pte_of (record k { mem = m }) mid leaf va) va) dst
            (pg_round_down srcva + pg_size) len n long
            (λ va. ap (λ (e : ℕ). phys e va) (frame-pte s m others_kept va)) rest)
          apart

module _ {pt : ℕ} {own : ℕ → Role} {mid : ℕ → ℕ} {leaf : ℕ → ℕ → ℕ} {xs : List ℕ} where
  copied_string :
      (f : ℕ) (k : Kmem)
      → Space k pt own mid leaf xs
      → (dst srcva max len : ℕ) → len < f
      → len < max
      → srcva + len < max_va
      → ((a : ℕ) → dst ≤ a → a < dst + (len + 1) → own (page_of a) ≡ other)
      → ((va : ℕ) → srcva ≤ va → va < srcva + (len + 1) → Readable (pte_of k mid leaf va))
      → ((va a : ℕ)
          → srcva ≤ va
          → va < srcva + (len + 1)
          → dst ≤ a
          → a < dst + (len + 1)
          → phys (pte_of k mid leaf va) va ≢ a)
      → Ends (λ i. k.mem (phys (pte_of k mid leaf (srcva + i)) (srcva + i))) len
      → (k' : Kmem) × (copy_str_loop f k pt dst srcva max ≡ done (pos 0, k'))
        × Space k' pt own mid leaf xs
        × Arrives mid leaf k k' dst srcva (len + 1)
  copied_string zero k s dst srcva max len fuel room top mine ok apart ends = absurd (omega arith)
  copied_string (suc f) k s dst srcva max len fuel room top mine ok apart ends =
      elim (Bool-cases (ltb len (chunk srcva max))) [
        | inl short ↦
            end_round k s f dst srcva max len room top mine ok apart ends
              (ltb→lt len (chunk srcva max) short)
        | inr more ↦
            let n = chunk srcva max in
            let long : n ≤ len = ltb→le len n more in
            let pte = pte_of k mid leaf srcva in
            let p = pa2va (pte2pa pte + (srcva - pg_round_down srcva)) in
            let readable = ok srcva (omega arith) (omega arith) in
            let found = round_page k s srcva (omega arith) readable in
            let at = page_chars mid leaf k srcva max (omega arith) in
            let (m, eq, same) =
              chunk_whole n k.mem p dst max
                (λ i lt e. ends.0 i (omega arith) (sym (ap k.mem (at i lt)) ∙ e))
                (λ i j hi hj e.
                  apart (srcva + i) (dst + j) (omega arith) (omega arith) (omega arith)
                    (omega arith) (sym (at i hi) ∙ e)) in
            let turn = turn_lem k s f dst srcva max len room top mine ok apart ends long m same in
            let others =
              others_kept k s f dst srcva max len room top mine ok apart ends long m same in
            let same_pte = frame-pte s m others in
            let (k', eq', s', rest) =
              copied_string f (record k { mem = m }) (frame-Space s m others) (dst + n)
                (pg_round_down srcva + pg_size) (max - n) (len - n)
                (omega (arith, (chunk_lem srcva max (omega arith)).0)) (omega arith)
                (omega (arith, turn)) (λ a lo hi. mine a (omega arith) (omega arith))
                (λ va lo hi. rw (same_pte va) (ok va (omega (arith, turn)) (omega (arith, turn))))
                (λ va a lo hi alo ahi e.
                  apart va a (omega (arith, turn)) (omega (arith, turn)) (omega arith) (omega arith)
                    (ap (λ (x : ℕ). phys x va) (sym (same_pte va)) ∙ e))
                (rest-Ends k s f dst srcva max len room top mine ok apart ends long m same) in
            (
              k',
              next_round f k pt dst srcva max (pte2pa pte) (dst + n) (max - n) m (omega arith) found
                    readable.1 eq
                  ∙ eq',
              s',
              joined k s f dst srcva max len room top mine ok apart ends long m same k' rest,
            )
      ]

  -- `copy_from_va_str` of a user string of `len < max` characters in readable pages, into a buffer of other pages with no
  -- source byte in it, returns 0, leaves the address space well-formed, puts the string with its terminator in
  -- the buffer, and writes nowhere else.
  pub copy_from_va_str_lem :
      (k : Kmem)
      → Space k pt own mid leaf xs
      → (dst srcva max len : ℕ) → len < max
      → srcva + len < max_va
      → ((a : ℕ) → dst ≤ a → a < dst + (len + 1) → own (page_of a) ≡ other)
      → ((va : ℕ) → srcva ≤ va → va < srcva + (len + 1) → Readable (pte_of k mid leaf va))
      → ((va a : ℕ)
          → srcva ≤ va
          → va < srcva + (len + 1)
          → dst ≤ a
          → a < dst + (len + 1)
          → phys (pte_of k mid leaf va) va ≢ a)
      → Ends (λ i. k.mem (phys (pte_of k mid leaf (srcva + i)) (srcva + i))) len
      → (k' : Kmem) × (copy_from_va_str k pt dst srcva max ≡ done (pos 0, k'))
        × Space k' pt own mid leaf xs
        × Arrives mid leaf k k' dst srcva (len + 1)
  unfolding copy_from_va_str
  copy_from_va_str_lem k s dst srcva max len room top mine ok apart ends =
      copied_string (max + 1) k s dst srcva max len (omega arith) room top mine ok apart ends
