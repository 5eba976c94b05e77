-- ===== src/Memory.antt =====
-- Byte-addressed memory, as the C code sees it: an address holds a byte.
pub mod Words
use loos_lab.Base.{
  ℕ, ◌+◌, ◌-◌, ◌≤◌, ◌<◌, ◌≡◌, ◌≢◌, ◌&&◌, Bool, List, [], ◌∷◌, ltb, leb, ◌==◌, if◌then◌else◌,
}

abbrev pub Mem : Type 0
Mem = ℕ → ℕ

-- `*a = v`
unfoldable pub put : Mem → ℕ → ℕ → Mem
put m a v x = if x == a then v else m x

-- `x` is one of the `n` addresses from `a` on.
abbrev pub within : ℕ → ℕ → ℕ → Bool
within a n x = leb a x && ltb x (a + n)

-- The `n` bytes from `src` on, moved at once to `dst`; every other byte as before.
unfoldable pub copied : Mem → (dst src n : ℕ) → Mem
copied m dst src n x = if within dst n x then m (src + (x - dst)) else m x

-- `n` bytes from `s` on set to `c`.
unfoldable pub filled : Mem → (s c n : ℕ) → Mem
filled m s c n x = if within s n x then c else m x

infix 4 ◌≗◌
abbrev pub ◌≗◌ : Mem → Mem → Type 0
m ≗ m' = (x : ℕ) → m x ≡ m' x

-- At `s` stands the C string of the bytes `xs`, with its terminator.
abbrev pub CStr : Mem → ℕ → List ℕ → Type 0
CStr m s [] = m s ≡ 0
CStr m s (c ∷ xs) = (m s ≡ c) × (c ≢ 0) × CStr m (s + 1) xs
