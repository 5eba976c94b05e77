-- ===== src/Mm/PageTable/Deliver.antt =====
-- Bytes delivered to places that are given address by address, piece by piece.

use loos_lab.Base.{
  ℕ, ◌+◌, ◌-◌, ◌≤◌, ◌<◌, ◌≡◌, ap, ◌∙◌, ◌≢◌, ◌⊎◌, inl, inr, arith, ltb, if◌then◌else◌, Bool-cases,
}
use loos_lab.Memory.{Mem, within}

-- The `len` bytes from `src` on stand at the places of the user addresses from `dstva` on, and no
-- other byte changed.
pub record Delivered (m₀ m' : Mem) (at : ℕ → ℕ) (dstva src len : ℕ) : Type 0 where
  pub arrived : (i : ℕ) → i < len → m' (at (dstva + i)) ≡ m₀ (src + i)
  pub elsewhere : (a : ℕ) → ((i : ℕ) → i < len → at (dstva + i) ≢ a) → m' a ≡ m₀ a

-- A first piece of `n` bytes and the bytes behind it make the whole.
pub merge_out :
    (m₀ m m' : Mem) (at : ℕ → ℕ) (dstva src next len n : ℕ)
    → n ≤ len
    → (n ≡ len) ⊎ (next ≡ dstva + n)
    → ((a : ℕ) → m a ≡ (if within (at dstva) n a then m₀ (src + (a - at dstva)) else m₀ a))
    → ((j : ℕ) → j < n → at dstva + j ≡ at (dstva + j))
    → Delivered m m' at next (src + n) (len - n)
    → ((va b : ℕ) → dstva ≤ va → va < dstva + len → src ≤ b → b < src + len → at va ≢ b)
    → ((va va' : ℕ)
        → dstva ≤ va
        → va < dstva + len
        → dstva ≤ va'
        → va' < dstva + len
        → at va ≡ at va'
        → va ≡ va')
    → Delivered m₀ m' at dstva src len
merge_out m₀ m m' at dstva src next len n le turn moved side rest apart inj = record {
  arrived = λ i lt. elim (Bool-cases (ltb i n)) [
    | inl first ↦
        let here : at dstva + i ≡ at (dstva + i) = side i (ground arith) in
        let kept : m' (at (dstva + i)) ≡ m (at (dstva + i)) =
          rest.elsewhere (at (dstva + i)) (λ j lj e. later i j (ground arith) lj e) in
        kept ∙ ground (arith, moved (at (dstva + i)), here)
    | inr behind ↦
        let va : next + (i - n) ≡ dstva + i = ground (arith, turn) in
        let b : src + n + (i - n) ≡ src + i = ground arith in
        let came = rest.arrived (i - n) (ground arith) in
        let kept : m (src + i) ≡ m₀ (src + i) = untouched (src + i) (omega arith) (omega arith) in
        rw (va, b) at came ∙ kept
  ];
  elsewhere = λ a off.
      rest.elsewhere a (λ j lj e. off (n + j) (omega arith) (ap at (shift j lj) ∙ e))
      ∙ missed a off;
}
  where
    shift : (j : ℕ) → j < len - n → dstva + (n + j) ≡ next + j
    shift j lj = omega (arith, turn)

    later : (i j : ℕ) → i < n → j < len - n → at (next + j) ≢ at (dstva + i)
    later i j li lj e =
        let same =
          inj (next + j) (dstva + i) (omega (arith, turn)) (omega (arith, turn)) (omega arith)
            (omega arith) e in
        omega (arith, turn, same)

    untouched : (b : ℕ) → src ≤ b → b < src + len → m b ≡ m₀ b
    untouched b lo hi = elim (Bool-cases (within (at dstva) n b)) [
      | inl hit ↦
          let j = b - at dstva in
          let here : at dstva + j ≡ at (dstva + j) = side j (ground arith) in
          absurd (apart (dstva + j) b (omega arith) (ground arith) lo hi (ground (arith, here)))
      | inr clear ↦ ground (arith, moved b)
    ]

    missed : (a : ℕ) → ((i : ℕ) → i < len → at (dstva + i) ≢ a) → m a ≡ m₀ a
    missed a off = elim (Bool-cases (within (at dstva) n a)) [
      | inl hit ↦
          let j = a - at dstva in
          let here : at dstva + j ≡ at (dstva + j) = side j (ground arith) in
          absurd (off j (ground arith) (ground (arith, here)))
      | inr clear ↦ ground (arith, moved a)
    ]
