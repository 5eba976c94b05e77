-- ===== src/Mm/PageTable/CopyOut.antt =====
-- `copy_to_va` on a well-formed address space: bytes of a kernel buffer arrive in user pages.

use loos_lab.Base.Int.{ℤ, pos}
use loos_lab.Base.Run.{Run, done}
use loos_lab.Libc.Block.{memmove}
use loos_lab.Libc.Block.Laws.{memmove-copied}
use loos_lab.Mm.Layout.{pg_size, pg_round_down, pa2va, pte2pa, max_va}
use loos_lab.Mm.Memblock.{Kmem}
use loos_lab.Mm.PageTable.{va_to_pa, copy_to_loop, copy_to_va}
use loos_lab.Mm.PageTable.Space.{Role, Space, pte_of, other}
use loos_lab.Mm.PageTable.Frame.{page_of, frame-Space, frame-pte}
use loos_lab.Mm.PageTable.Deliver.{Delivered, merge_out}
use loos_lab.Mm.PageTable.CopyIn.{phys, Readable, phys-next, pte_of-page, chunk_lem, round_page}
use mathlib.Core.Path.{subst}
use loos_lab.Base.{
  ℕ, zero, suc, ◌+◌, ◌-◌, ◌≤◌, ◌<◌, min, ◌≡◌, refl, sym, ap, ◌∙◌, fun_ext, ◌≢◌, inl, inr, List,
  arith, if◌then◌else◌, Bool-cases,
}
use loos_lab.Memory.{Mem, within, copied}

-- Where the kernel finds the byte of a user address, in the state `k`.
abbrev pub user_at : Kmem → (ℕ → ℕ) → (ℕ → ℕ → ℕ) → ℕ → ℕ
user_at k mid leaf va = phys (pte_of k mid leaf va) va

-- A round whose page is found.
round_to :
    (f : ℕ) (k : Kmem) (pt dstva src l pa0 : ℕ) (r : Run (ℤ × Kmem))
    → va_to_pa k pt (pg_round_down dstva) ≡ done pa0
    → pa0 ≢ 0
    → (let n = min (pg_size - (dstva - pg_round_down dstva)) (suc l) in
        let m = (memmove k.mem (pa2va (pa0 + (dstva - pg_round_down dstva))) src n).0 in
        copy_to_loop f
          (record k { mem = m })
          pt
          (pg_round_down dstva + pg_size)
          (src + n)
          (suc l - n)
        ≡ r)
    → copy_to_loop (suc f) k pt dstva src (suc l) ≡ r
unfolding copy_to_loop
round_to f k pt dstva src l pa0 r found nz rest = ground (arith, found, nz, rest)

-- How many bytes a round copies, and the memory after it.
abbrev chunk : ℕ → ℕ → ℕ
chunk dstva len = min (pg_size - (dstva - pg_round_down dstva)) len

abbrev after_round : Kmem → (pte dstva src len : ℕ) → Mem
after_round k pte dstva src len =
    (memmove k.mem (pa2va (pte2pa pte + (dstva - pg_round_down dstva))) src (chunk dstva len)).0

module _ {pt : ℕ} {own : ℕ → Role} {mid : ℕ → ℕ} {leaf : ℕ → ℕ → ℕ} {xs : List ℕ} (k : Kmem)
    (s : Space k pt own mid leaf xs) (dstva src len : ℕ) (nonzero : 0 < len)
    (mine : (va : ℕ)
      → dstva ≤ va
      → va < dstva + len
      → own (page_of (user_at k mid leaf va)) ≡ other) where
  round_side :
      (j : ℕ) → j < chunk dstva len → user_at k mid leaf dstva + j ≡ user_at k mid leaf (dstva + j)
  round_side j lt =
      let (_, _, _, room, _, _) = chunk_lem dstva len nonzero in
      phys-next (pte_of k mid leaf dstva) dstva j (omega (arith, room))
      ∙ ap (λ (e : ℕ). phys e (dstva + j))
          (pte_of-page k mid leaf dstva (dstva + j) (omega (arith, room)))

  round_moved :
      (a : ℕ)
      → after_round k (pte_of k mid leaf dstva) dstva src len a ≡ (
          if within (user_at k mid leaf dstva) (chunk dstva len) a
          then k.mem (src + (a - user_at k mid leaf dstva))
          else k.mem a)
  unfolding copied
  round_moved a =
      let pte = pte_of k mid leaf dstva in
      let (_, _, off, _, _, _) = chunk_lem dstva len nonzero in
      let base : pa2va (pte2pa pte + (dstva - pg_round_down dstva)) ≡ user_at k mid leaf dstva =
        ap (λ (o : ℕ). pa2va (pte2pa pte + o)) off in
      memmove-copied k.mem (pa2va (pte2pa pte + (dstva - pg_round_down dstva))) src
        (chunk dstva len) a
      ∙ ground (arith, base)

  round_same :
      (a : ℕ)
      → own (page_of a) ≢ other
      → after_round k (pte_of k mid leaf dstva) dstva src len a ≡ k.mem a
  round_same a foreign =
      let (_, le, _, _, _, _) = chunk_lem dstva len nonzero in
      elim (Bool-cases (within (user_at k mid leaf dstva) (chunk dstva len) a)) [
        | inl hit ↦
            let j = a - user_at k mid leaf dstva in
            let near : j < chunk dstva len = ground arith in
            let here : a ≡ user_at k mid leaf (dstva + j) = ground (arith, round_side j near) in
            absurd (foreign (rw here (mine (dstva + j) (omega arith) (omega (arith, le)))))
        | inr clear ↦ ground (arith, round_moved a)
      ]

module _ {pt : ℕ} {own : ℕ → Role} {mid : ℕ → ℕ} {leaf : ℕ → ℕ → ℕ} {xs : List ℕ} where
  copied_to :
      (f : ℕ) (k : Kmem)
      → Space k pt own mid leaf xs
      → (dstva src len : ℕ) → len < f
      → dstva + len ≤ max_va
      → ((va : ℕ) → dstva ≤ va → va < dstva + len → own (page_of (user_at k mid leaf va)) ≡ other)
      → ((va : ℕ) → dstva ≤ va → va < dstva + len → Readable (pte_of k mid leaf va))
      → ((va b : ℕ)
          → dstva ≤ va
          → va < dstva + len
          → src ≤ b
          → b < src + len
          → user_at k mid leaf va ≢ b)
      → ((va va' : ℕ)
          → dstva ≤ va
          → va < dstva + len
          → dstva ≤ va'
          → va' < dstva + len
          → user_at k mid leaf va ≡ user_at k mid leaf va'
          → va ≡ va')
      → (k' : Kmem) × (copy_to_loop f k pt dstva src len ≡ done (pos 0, k'))
        × Space k' pt own mid leaf xs
        × Delivered k.mem k'.mem (user_at k mid leaf) dstva src len
  unfolding copy_to_loop
  copied_to zero k s dstva src len fuel top mine ok apart inj = absurd (omega arith)
  copied_to (suc f) k s dstva src zero fuel top mine ok apart inj = (
    k,
    ground arith,
    s,
    record { arrived = λ i lt. absurd (omega arith); elsewhere = λ a off. refl },
  )
  copied_to (suc f) k s dstva src (suc l) fuel top mine ok apart inj =
      let len = suc l in
      let next = pg_round_down dstva + pg_size in
      let n = chunk dstva len in
      let pte = pte_of k mid leaf dstva in
      let found = round_page k s dstva (omega arith) (ok dstva (omega arith) (omega arith)) in
      let m : Mem = after_round k pte dstva src len in
      let (some_bytes, le, off, room, turn, down) = chunk_lem dstva len (omega arith) in
      let same = round_same k s dstva src len (omega arith) mine in
      let ptes = frame-pte s m same in
      let ats = λ (va : ℕ). ap (λ (e : ℕ). phys e va) (ptes va) in
      let (k', eq, s', rest) =
        copied_to f (record k { mem = m }) (frame-Space s m same) next (src + n) (len - n)
          (omega arith) (omega (arith, turn, top))
          (λ va lo hi. rw (ats va) (mine va (omega (arith, turn)) (omega (arith, turn))))
          (λ va lo hi. rw (ptes va) (ok va (omega (arith, turn)) (omega (arith, turn))))
          (λ va b lo hi blo bhi e.
            apart va b (omega (arith, turn)) (omega (arith, turn)) (omega arith) (omega arith)
              (sym (ats va) ∙ e))
          (λ va va' lo hi lo' hi' e.
            inj va va' (omega (arith, turn)) (omega (arith, turn)) (omega (arith, turn))
              (omega (arith, turn)) (sym (ats va) ∙ e ∙ ats va')) in
      (
        k',
        round_to f k pt dstva src l (pte2pa pte) (done (pos 0, k')) found
            (ok dstva (omega arith) (omega arith)).1 eq,
        s',
        merge_out k.mem m k'.mem (user_at k mid leaf) dstva src next len n le turn
            (round_moved k s dstva src len (omega arith) mine)
            (round_side k s dstva src len (omega arith) mine)
            (subst (λ (at : ℕ → ℕ). Delivered m k'.mem at next (src + n) (len - n)) (fun_ext ats)
              rest)
            apart inj,
      )

  -- `copy_to_va` from a buffer into readable pages of other users, where different user addresses have
  -- different places and none lies in the buffer, returns 0, leaves the address space well-formed,
  -- delivers each byte of the buffer to its user address, and writes nowhere else.
  pub copy_to_va-Delivered :
      (k : Kmem)
      → Space k pt own mid leaf xs
      → (dstva src len : ℕ) → dstva + len ≤ max_va
      → ((va : ℕ) → dstva ≤ va → va < dstva + len → own (page_of (user_at k mid leaf va)) ≡ other)
      → ((va : ℕ) → dstva ≤ va → va < dstva + len → Readable (pte_of k mid leaf va))
      → ((va b : ℕ)
          → dstva ≤ va
          → va < dstva + len
          → src ≤ b
          → b < src + len
          → user_at k mid leaf va ≢ b)
      → ((va va' : ℕ)
          → dstva ≤ va
          → va < dstva + len
          → dstva ≤ va'
          → va' < dstva + len
          → user_at k mid leaf va ≡ user_at k mid leaf va'
          → va ≡ va')
      → (k' : Kmem) × (copy_to_va k pt dstva src len ≡ done (pos 0, k'))
        × Space k' pt own mid leaf xs
        × Delivered k.mem k'.mem (user_at k mid leaf) dstva src len
  unfolding copy_to_va
  copy_to_va-Delivered k s dstva src len top mine ok apart inj =
      copied_to (len + 1) k s dstva src len (omega arith) top mine ok apart inj
