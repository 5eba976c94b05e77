-- ===== src/Libc/Str/Compare.antt =====
-- `strncmp`, `strcmp` and `strcasecmp` of lolibc/string.c on terminated strings.
use loos_lab.Base.{
  ℕ, zero, suc, ◌+◌, ◌<◌, ◌≡◌, refl, ◌∙◌, ◌≢◌, ◌↔◌, ◌⊎◌, inl, inr, not, ◌&&◌, some, List, [], ◌∷◌,
  map, arith, ltb, ◌==◌, Bool-cases, length,
}
use loos_lab.Base.Int.{ℤ, ◌-ℤ◌, pos}
use loos_lab.Memory.{Mem, CStr}
use loos_lab.Libc.Str.{signed_char, char_diff, strncmp, max_str_len, strcmp, to_lower, strcasecmp}

-- `s1` and `s2` first stop a comparison at index `k`: equal and non-zero before it.
pub record Stops (m : Mem) (s1 s2 n k : ℕ) : Type 0 where
  pub before : (i : ℕ) → i < k → (m (s1 + i) ≡ m (s2 + i)) × (m (s1 + i) ≢ 0)
  pub at_stop : (k + 1 ≡ n) ⊎ (m (s1 + k) ≡ 0) ⊎ (m (s1 + k) ≢ m (s2 + k))

-- `strncmp` of at least one character is the difference, as signed characters, at the first index
-- `k` below `n` where the strings differ, the first one ends, or `n` characters are compared.
pub strncmp_first :
    (m : Mem) (s1 s2 n : ℕ)
    → 0 < n
    → (k : ℕ) × (k < n) × (strncmp m s1 s2 n ≡ char_diff m (s1 + k) (s2 + k)) × Stops m s1 s2 n k
unfolding strncmp
strncmp_first m s1 s2 zero h = absurd (omega arith)
strncmp_first m s1 s2 (suc n) h =
    elim (Bool-cases (not (m s1 == 0) && (m s1 == m s2 && ltb 1 (suc n)))) [
      | inl more ↦
          let (k, lt, eq, st) = strncmp_first m (s1 + 1) (s2 + 1) n (ground arith) in
          (
            suc k,
            omega arith,
            rw more (ground (arith, eq)),
            record {
              before = earlier k (ground arith) (ground arith) st.before;
              at_stop = ground (arith, st.at_stop);
            },
          )
      | inr last ↦ (
        0,
        omega arith,
        rw last (ground arith),
        record { before = λ i lt. absurd (omega arith); at_stop = ground arith },
      )
    ]
  where
    earlier :
        (k : ℕ)
        → m s1 ≡ m s2
        → m s1 ≢ 0
        → ((i : ℕ) → i < k → (m (s1 + 1 + i) ≡ m (s2 + 1 + i)) × (m (s1 + 1 + i) ≢ 0))
        → (i : ℕ) → i < suc k
        → (m (s1 + i) ≡ m (s2 + i)) × (m (s1 + i) ≢ 0)
    earlier k here full same zero lt = ground arith
    earlier k here full same (suc i) lt = ground (arith, same i)

-- Bytes only.
abbrev pub IsBytes : List ℕ → Type 0
IsBytes [] = Unit
IsBytes (x ∷ xs) = (x < 256) × IsBytes xs

signed_char_inj : (a b : ℕ) → a < 256 → b < 256 → signed_char a -ℤ signed_char b ≡ pos 0 → a ≡ b
unfolding signed_char ◌-ℤ◌
signed_char_inj a b ha hb e = ground arith

signed_char_self : (a : ℕ) → signed_char a -ℤ signed_char a ≡ pos 0
unfolding signed_char ◌-ℤ◌
signed_char_self a = ground arith

strncmp-eq_lists :
    (m : Mem) (s1 s2 n : ℕ) (xs ys : List ℕ)
    → CStr m s1 xs
    → CStr m s2 ys
    → IsBytes xs
    → IsBytes ys
    → length xs < n
    → strncmp m s1 s2 n ≡ pos 0
    → xs ≡ ys
unfolding strncmp char_diff
strncmp-eq_lists m s1 s2 zero xs ys c d bx by h e = absurd (omega arith)
strncmp-eq_lists m s1 s2 (suc n) [] [] c d bx by h e = refl
strncmp-eq_lists m s1 s2 (suc n) [] (y ∷ ys) c d bx by h e = ground (arith, signed_char_inj 0 y)
strncmp-eq_lists m s1 s2 (suc n) (x ∷ xs) [] c d bx by h e = ground (arith, signed_char_inj x 0)
strncmp-eq_lists m s1 s2 (suc n) (x ∷ xs) (y ∷ ys) c d bx by h e =
    ground
      (arith, signed_char_inj x y, strncmp-eq_lists m (s1 + 1) (s2 + 1) n xs ys c.2 d.2 bx.1 by.1)

strncmp-same :
    (m : Mem) (s1 s2 n : ℕ) (xs : List ℕ) → CStr m s1 xs → CStr m s2 xs → strncmp m s1 s2 n ≡ pos 0
unfolding strncmp char_diff
strncmp-same m s1 s2 zero [] c d = ground (arith, signed_char_self 0)
strncmp-same m s1 s2 zero (x ∷ xs) c d = ground (arith, signed_char_self x)
strncmp-same m s1 s2 (suc n) [] c d = ground (arith, signed_char_self 0)
strncmp-same m s1 s2 (suc n) (x ∷ xs) c d =
    ground (arith, signed_char_self x, strncmp-same m (s1 + 1) (s2 + 1) n xs c.2 d.2)

-- `strcmp` of two terminated byte strings, the first shorter than 1024, is 0 exactly when they are
-- the same string.
pub strcmp-eq_zero :
    (m : Mem) (s1 s2 : ℕ) (xs ys : List ℕ)
    → CStr m s1 xs
    → CStr m s2 ys
    → IsBytes xs
    → IsBytes ys
    → length xs < max_str_len
    → (strcmp m s1 s2 ≡ pos 0) ↔ (xs ≡ ys)
unfolding strcmp
strcmp-eq_zero m s1 s2 xs ys c d bx by h = (
  strncmp-eq_lists m s1 s2 max_str_len xs ys c d bx by h,
  λ e. strncmp-same m s1 s2 max_str_len xs c (rw (← e) at d),
)

strncmp-prefix :
    (m : Mem) (s1 s2 n : ℕ)
    → ((i : ℕ) → i < n → m (s1 + i) ≡ m (s2 + i))
    → 0 < n
    → strncmp m s1 s2 n ≡ pos 0
unfolding char_diff
strncmp-prefix m s1 s2 n same h =
    let (k, lt, eq, st) = strncmp_first m s1 s2 n h in
    eq ∙ ground (arith, same k, signed_char_self (m (s1 + k)))

-- `strcmp` looks at 1024 characters at most: strings that agree so far compare as equal, however
-- they go on.
pub strcmp-prefix :
    (m : Mem) (s1 s2 : ℕ)
    → ((i : ℕ) → i < max_str_len → m (s1 + i) ≡ m (s2 + i))
    → strcmp m s1 s2 ≡ pos 0
unfolding strcmp
strcmp-prefix m s1 s2 same = strncmp-prefix m s1 s2 max_str_len same (omega arith)

abbrev pub lower_all : List ℕ → List ℕ
lower_all = map to_lower

lower_byte : (c : ℕ) → c < 256 → to_lower c < 256
unfolding to_lower
lower_byte c h = ground arith

-- `strcasecmp` of two terminated byte strings returns, and returns 0 exactly when the strings are
-- equal once their capital letters A to Z are made small.
pub strcasecmp-eq_zero :
    (f : ℕ) (m : Mem) (s1 s2 : ℕ) (xs ys : List ℕ)
    → CStr m s1 xs
    → CStr m s2 ys
    → IsBytes xs
    → IsBytes ys
    → length xs < f
    → (r : ℤ) × (strcasecmp f m s1 s2 ≡ some r) × ((r ≡ pos 0) ↔ (lower_all xs ≡ lower_all ys))
unfolding strcasecmp char_diff
strcasecmp-eq_zero zero m s1 s2 xs ys c d bx by h = absurd (omega arith)
strcasecmp-eq_zero (suc f) m s1 s2 [] [] c d bx by h =
    (char_diff m s1 s2, ground arith, (λ _. refl, λ _. ground (arith, signed_char_self 0)))
strcasecmp-eq_zero (suc f) m s1 s2 [] (y ∷ ys) c d bx by h =
    (char_diff m s1 s2, ground arith, (λ e. ground (arith, signed_char_inj 0 y), λ e. cc))
strcasecmp-eq_zero (suc f) m s1 s2 (x ∷ xs) [] c d bx by h =
    (char_diff m s1 s2, ground arith, (λ e. ground (arith, signed_char_inj x 0), λ e. cc))
strcasecmp-eq_zero (suc f) m s1 s2 (x ∷ xs) (y ∷ ys) c d bx by h =
    elim (Bool-cases (to_lower x == to_lower y)) [
      | inl same ↦
          let (r, eq, iff) =
            strcasecmp-eq_zero f m (s1 + 1) (s2 + 1) xs ys c.2 d.2 bx.1 by.1 (omega arith) in
          (r, ground arith, (λ e. ground (arith, iff.0 e), λ e. iff.1 (ground arith)))
      | inr differ ↦
          let a = to_lower x in
          let b = to_lower y in
          (
            signed_char a -ℤ signed_char b,
            ground arith,
            (
              λ e. ground (arith, signed_char_inj a b (lower_byte x bx.0) (lower_byte y by.0)),
              λ e. ground arith,
            ),
          )
    ]
