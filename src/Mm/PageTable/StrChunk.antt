-- ===== src/Mm/PageTable/StrChunk.antt =====
-- The rounds of `copy_from_va_str` of mm/n_vm.c: the characters of one page.
use loos_lab.Base.{
  ℕ, zero, suc, ◌+◌, ◌-◌, ◌≤◌, ◌<◌, min, ◌≡◌, refl, sym, ap, ◌∙◌, ◌≢◌, inl, inr, true, false, arith,
  if◌then◌else◌, eq→==, ne→==, Bool-cases,
}
use loos_lab.Base.Int.{pos}
use loos_lab.Base.Run.{done}
use loos_lab.Memory.{Mem, put, within, copied, ◌≗◌}
use loos_lab.Mm.Layout.{pg_size, pg_round_down, pa2va}
use loos_lab.Mm.Memblock.{Kmem}
use loos_lab.Mm.PageTable.{va_to_pa, str_chunk, copy_str_loop}
use native.Mathlib.Nat.{add-zero}

-- Where the first character 0 is: `len` characters stand before it.
abbrev pub Ends : (char : ℕ → ℕ) → (len : ℕ) → Type 0
Ends char len = ((i : ℕ) → i < len → char i ≢ 0) × (char len ≡ 0)

-- The copy of a character leaves the characters behind it.
next_char : (m : Mem) (p dst i : ℕ) → p + suc i ≢ dst → put m dst (m p) (p + 1 + i) ≡ m (p + suc i)
unfolding put
next_char m p dst i h = ground arith

none_copied : (m : Mem) (p dst : ℕ) → m ≗ copied m dst p 0
unfolding copied
none_copied m p dst a = ground arith

one_copied : (m : Mem) (p dst a : ℕ) → m p ≡ 0 → put m dst 0 a ≡ copied m dst p 1 a
unfolding put copied
one_copied m p dst a here = ground arith

-- A character, and then the bytes behind it.
copied_next :
    (m : Mem) (p dst n : ℕ)
    → ((i : ℕ) → i < n → p + suc i ≢ dst)
    → copied (put m dst (m p)) (dst + 1) (p + 1) n ≗ copied m dst p (suc n)
unfolding put copied
copied_next m p dst n apart a = ground (arith, apart (a - (dst + 1)))

-- A chunk without a terminator is copied whole,
pub chunk_whole :
    (n : ℕ) (m : Mem) (p dst max : ℕ)
    → ((i : ℕ) → i < n → m (p + i) ≢ 0)
    → ((i j : ℕ) → i < n → j < n → p + i ≢ dst + j)
    → (m' : Mem) × (str_chunk n m p dst max ≡ (false, m', dst + n, max - n))
      × (m' ≗ copied m dst p n)
unfolding str_chunk
chunk_whole zero m p dst max chars apart = (m, ground arith, λ a. none_copied m p dst a)
chunk_whole (suc n) m p dst max chars apart =
    let off : (i : ℕ) → i < n → p + suc i ≢ dst =
      λ i lt e. apart (suc i) 0 (omega arith) (omega arith) (omega arith) in
    let here : m p ≢ 0 = λ e. chars 0 (omega arith) (ap m (add-zero p) ∙ e) in
    let (m', eq, same) =
      chunk_whole n (put m dst (m p)) (p + 1) (dst + 1) (max - 1)
        (λ i lt e. chars (suc i) (omega arith) (sym (next_char m p dst i (off i lt)) ∙ e))
        (λ i j hi hj e. apart (suc i) (suc j) (omega arith) (omega arith) (omega arith)) in
    (m', rw (ne→== (m p) 0 here) (eq ∙ ground arith), λ a. same a ∙ copied_next m p dst n off a)

-- and one with a terminator up to it.
pub str_chunk-Ends :
    (n len : ℕ) (m : Mem) (p dst max : ℕ)
    → len < n
    → Ends (λ i. m (p + i)) len
    → ((i j : ℕ) → i ≤ len → j ≤ len → p + i ≢ dst + j)
    → (m' : Mem) × (str_chunk n m p dst max ≡ (true, m', dst + len, max - len))
      × (m' ≗ copied m dst p (len + 1))
unfolding str_chunk
str_chunk-Ends zero len m p dst max lt ends apart = absurd (omega arith)
str_chunk-Ends (suc n) zero m p dst max lt ends apart =
    let here : m p ≡ 0 = rw (add-zero p) at ends.1 in
    (put m dst 0, rw (eq→== (m p) 0 here) (ground arith), λ a. one_copied m p dst a here)
str_chunk-Ends (suc n) (suc len) m p dst max lt ends apart =
    let off : (i : ℕ) → i < len + 1 → p + suc i ≢ dst =
      λ i h e. apart (suc i) 0 (omega arith) (omega arith) (omega arith) in
    let here : m p ≢ 0 = λ e. ends.0 0 (omega arith) (ap m (add-zero p) ∙ e) in
    let (m', eq, same) =
      str_chunk-Ends n len (put m dst (m p)) (p + 1) (dst + 1) (max - 1) (omega arith)
        (
          (λ i h e.
              ends.0 (suc i) (omega arith) (sym (next_char m p dst i (off i (omega arith))) ∙ e)),
          next_char m p dst len (off len (omega arith)) ∙ ends.1,
        )
        (λ i j hi hj e. apart (suc i) (suc j) (omega arith) (omega arith) (omega arith)) in
    (
      m',
      rw (ne→== (m p) 0 here) (eq ∙ ground arith),
      λ a.
          same a
          ∙ copied_next m p dst (len + 1) off a
          ∙ ap (λ (k : ℕ). copied m dst p k a) (omega arith),
    )

-- The copied bytes, each found where its source address is.
pub moved_to :
    (m : Mem) (at : ℕ → ℕ) (p dst n : ℕ)
    → ((i : ℕ) → i < n → p + i ≡ at i)
    → (a : ℕ) → copied m dst p n a ≡ (if within dst n a then m (at (a - dst)) else m a)
unfolding copied
moved_to m at p dst n there a = elim (Bool-cases (within dst n a)) [
  | inl e ↦ rw e (ap m (there (a - dst) (ground arith)))
  | inr e ↦ rw e refl
]

-- A round of the outer loop, by what `str_chunk` answers.
module _ (f : ℕ) (k : Kmem) (pt dst srcva max pa0 d x : ℕ) (m : Mem) (some_bytes : max ≢ 0)
    (found : va_to_pa k pt (pg_round_down srcva) ≡ done pa0) (mapped : pa0 ≢ 0) where
  pub last_round :
      str_chunk
          (min (pg_size - (srcva - pg_round_down srcva)) max)
          k.mem
          (pa2va (pa0 + (srcva - pg_round_down srcva)))
          dst
          max
        ≡ (true, m, d, x)
      → copy_str_loop (suc f) k pt dst srcva max ≡ done (pos 0, record k { mem = m })
  unfolding copy_str_loop
  last_round e = rw (ne→== max 0 some_bytes, found, e, ne→== pa0 0 mapped) refl

  pub next_round :
      str_chunk
          (min (pg_size - (srcva - pg_round_down srcva)) max)
          k.mem
          (pa2va (pa0 + (srcva - pg_round_down srcva)))
          dst
          max
        ≡ (false, m, d, x)
      → copy_str_loop (suc f) k pt dst srcva max
        ≡ copy_str_loop f (record k { mem = m }) pt d (pg_round_down srcva + pg_size) x
  unfolding copy_str_loop
  next_round e = rw (ne→== max 0 some_bytes, found, e, ne→== pa0 0 mapped) refl

-- The bytes behind a first piece, with the entries of the address space as they were before it.
pub rest_lem :
    (m m' : Mem) (at at' : ℕ → ℕ) (dst next len n : ℕ)
    → n ≤ len
    → ((v : ℕ) → at' v ≡ at v)
    → ((a : ℕ)
        → m' a
          ≡ (if within (dst + n) (len - n + 1) a then m (at' (next + (a - (dst + n)))) else m a))
    → (a : ℕ)
    → m' a ≡ (if within (dst + n) (len + 1 - n) a then m (at (next + (a - (dst + n)))) else m a)
rest_lem m m' at at' dst next len n le same rest a =
    let e : len - n + 1 ≡ len + 1 - n = omega arith in
    rest a ∙ rw (e, same (next + (a - (dst + n)))) refl
