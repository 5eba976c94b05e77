-- ===== src/Fs/Files/Count.antt =====
-- Counting the descriptors that refer to a file, and the searches for a free entry.

use loos_lab.Base.{
  ℕ, zero, suc, ◌+◌, ◌<◌, ◌≡◌, refl, ◌⊎◌, inl, inr, Bool, true, false, not, ◌&&◌, none, some, List,
  [], ◌∷◌, arith, ◌==◌, Bool-cases, length, get_or, set,
}
use loos_lab.Fs.Files.{Fd, Files, first_from}

abbrev pub indicator : Bool → ℕ
indicator true = 1
indicator false = 0

-- An open descriptor of the file `i`.
abbrev pub refers : ℕ → Fd → Bool
refers i d = not (d.busy == 0) && d.fds_index == i

abbrev pub count {ℓ} : {A : Type ℓ} → (A → Bool) → List A → ℕ
count test [] = 0
count test (x ∷ xs) = indicator (test x) + count test xs

-- How many open descriptors share the file `i`.
abbrev pub refs : Files → ℕ → ℕ
refs t i = count (refers i) t.fdtable

module _ {ℓ} {A : Type ℓ} (test : A → Bool) where
  pub count-set :
      (xs : List A) (n : ℕ) (v d : A)
      → n < length xs
      → count test (set xs n v) + indicator (test (get_or xs n d))
        ≡ count test xs + indicator (test v)
  count-set [] n v d h = absurd (omega arith)
  count-set (x ∷ xs) zero v d h = omega arith
  count-set (x ∷ xs) (suc n) v d h = omega (arith, count-set xs n v d (omega arith))

  -- A search answers the first element that passes, and none only if none passes.
  pub first_from_lem :
      (i : ℕ) (xs : List A) (d : A)
      → ((first_from test i xs ≡ none) × ((j : ℕ) → j < length xs → test (get_or xs j d) ≡ false))
        ⊎ ((n : ℕ) × (first_from test i xs ≡ some (i + n))
            × (n < length xs)
            × (test (get_or xs n d) ≡ true)
            × ((j : ℕ) → j < n → test (get_or xs j d) ≡ false))
  first_from_lem i [] d = inl (refl, λ j h. absurd (omega arith))
  first_from_lem i (x ∷ xs) d = elim (Bool-cases (test x)) [
    | inl passes ↦ inr (0, ground arith, omega arith, passes, λ j h. absurd (omega arith))
    | inr fails ↦ elim (first_from_lem (suc i) xs d) [
      | inl (eq, all) ↦ inl (ground (arith, eq), earlier (length xs) fails all)
      | inr (n, eq, lt, passes, all) ↦
          inr (suc n, ground (arith, eq), omega arith, passes, earlier n fails all)
    ]
  ]
    where
      earlier :
          (n : ℕ)
          → test x ≡ false
          → ((j : ℕ) → j < n → test (get_or xs j d) ≡ false)
          → (j : ℕ) → j < suc n
          → test (get_or (x ∷ xs) j d) ≡ false
      earlier n fails all zero h = fails
      earlier n fails all (suc j) h = all j (omega arith)
