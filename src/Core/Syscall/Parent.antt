-- ===== src/Core/Syscall/Parent.antt =====
-- How `sys_chdir` of core/syscall.c goes up: the current directory without its last component.

use loos_lab.Base.{
  ℕ, zero, suc, ◌+◌, ◌≤◌, ◌<◌, ◌≡◌, refl, sym, ap, ◌∙◌, ◌≢◌, ◌⊎◌, inl, inr, Bool, true, false,
  Option, none, some, List, [], ◌∷◌, ◌++◌, arith, ◌==◌, if◌then◌else◌, ==→eq, eq→==, ==→ne,
  Bool-cases, length, length-append, has,
}
use loos_lab.Memory.{Mem, put, CStr}
use loos_lab.Core.Syscall.{cut_slash}
use loos_lab.Core.Syscall.Path.{slash_text, WritesOnly}
use mathlib.Core.Path.{subst}
use native.Mathlib.Nat.{add-zero, zero-add}

-- The text in front of the last slash.
abbrev pub cut_last : List ℕ → Option (List ℕ)
cut_last [] = none
cut_last (x ∷ xs) = elim (cut_last xs) [
  | some d ↦ some (x ∷ d)
  | none ↦ (if x == b'/' then some [] else none)
]

abbrev pub or_root : Option (List ℕ) → List ℕ
or_root none = slash_text
or_root (some []) = slash_text
or_root (some (x ∷ d)) = x ∷ d

-- The parent of a directory, which for "/" is "/".
abbrev pub parent : List ℕ → List ℕ
parent c = or_root (cut_last c)

-- Where a text has its last slash.
pub cut_cases :
    (c : List ℕ)
    → ((cut_last c ≡ none) × (has b'/' c ≡ false))
      ⊎ ((d n : List ℕ) × (c ≡ d ++ (b'/' ∷ n)) × (has b'/' n ≡ false) × (cut_last c ≡ some d))
cut_cases [] = inl (refl, refl)
cut_cases (x ∷ xs) = elim (cut_cases xs) [
  | inl (e, h) ↦ elim (Bool-cases (x == b'/')) [
    | inl here ↦ inr ([], xs, ap (λ k. k ∷ xs) (==→eq x b'/' here), h, rw (e, here) refl)
    | inr not_here ↦ inl (rw (e, not_here) refl, ground (arith, h, ==→ne x b'/' not_here))
  ]
  | inr (d, n, e, h, cut) ↦ inr (x ∷ d, n, ap (λ t. x ∷ t) e, h, rw cut refl)
]

both : {b : Bool} → b ≡ true → b ≡ false → ⊥
both p q = cc

has_mid : (x : ℕ) (a b : List ℕ) → has x (a ++ (x ∷ b)) ≡ true
has_mid x [] b = ground arith
has_mid x (y ∷ a) b = ground (arith, has_mid x a b)

pub cut_last-append : (d n : List ℕ) → has b'/' n ≡ false → cut_last (d ++ (b'/' ∷ n)) ≡ some d
cut_last-append [] n h = elim (cut_cases n) [
  | inl (e, no_slash) ↦ rw e refl
  | inr (a, b, e, no_slash, cut) ↦ absurd (both (ap (has b'/') e ∙ has_mid b'/' a b) h)
]
cut_last-append (x ∷ d) n h = rw (cut_last-append d n h) refl

-- A character of a string behind which there is no slash.
no_slash :
    (m : Mem) (s : ℕ) (n : List ℕ) (i : ℕ)
    → CStr m s n
    → has b'/' n ≡ false
    → i ≤ length n
    → (m (s + i) == b'/') ≡ false
no_slash m s [] i c h le = ground arith
no_slash m s (x ∷ n) zero c h le = ground (arith, c.0)
no_slash m s (x ∷ n) (suc i) c h le =
    ap (λ (a : ℕ). m a == b'/') (omega arith)
    ∙ no_slash m (s + 1) n i c.2 (ground (arith, h)) (omega arith)

CStr-drop : (m : Mem) (s : ℕ) (d xs : List ℕ) → CStr m s (d ++ xs) → CStr m (s + length d) xs
CStr-drop m s [] xs c = rw (add-zero s) c
CStr-drop m s (x ∷ d) xs c =
    let e : s + 1 + length d ≡ s + suc (length d) = omega arith in
    rw e at (CStr-drop m (s + 1) d xs c.2)

CStr-cut :
    (m : Mem) (s : ℕ) (d xs : List ℕ) → CStr m s (d ++ xs) → CStr (put m (s + length d) 0) s d
unfolding put
CStr-cut m s [] xs c = ground arith
CStr-cut m s (x ∷ d) xs c =
    let e : s + 1 + length d ≡ s + suc (length d) = omega arith in
    (ground arith, c.1, rw e at (CStr-cut m (s + 1) d xs c.2))

put_off : (m : Mem) (a v x : ℕ) → x ≢ a → put m a v x ≡ m x
unfolding put
put_off m a v x h = ground arith

cut_passes :
    (m : Mem) (s p k : ℕ)
    → ((i : ℕ) → i < k → (m (s + suc (p + i)) == b'/') ≡ false)
    → cut_slash m s (p + k) ≡ cut_slash m s p
unfolding cut_slash
cut_passes m s p zero h = rw (add-zero p) refl
cut_passes m s p (suc k) h =
    let e : p + suc k ≡ suc (p + k) = omega arith in
    rw (e, h k (omega arith)) (cut_passes m s p k (λ i lt. h i (omega arith)))

-- What `cut_slash` leaves of a string.
abbrev pub Cut : Mem → (s : ℕ) → (c : List ℕ) → ℕ × Mem → Type 0
Cut m s c (i, m') =
    ((i ≡ 0) × (m' ≡ m) × (parent c ≡ slash_text))
    ⊎ ((i ≢ 0) × CStr m' s (parent c) × WritesOnly m m' s (length c + 1))

cut_slash-Cut :
    (m : Mem) (s : ℕ) (d n : List ℕ)
    → CStr m s (d ++ (b'/' ∷ n))
    → has b'/' n ≡ false
    → Cut m s (d ++ (b'/' ∷ n)) (cut_slash m s (length d))
unfolding cut_slash
cut_slash-Cut m s [] n string h = inl (refl, refl, rw (cut_last-append [] n h) refl)
cut_slash-Cut m s (x ∷ d) n string h =
    let here : m (s + suc (length d)) ≡ b'/' = (CStr-drop m s (x ∷ d) (b'/' ∷ n) string).0 in
    rw (eq→== (m (s + suc (length d))) b'/' here) (
      inr (
        (λ e. absurd (omega arith)),
        rw (cut_last-append (x ∷ d) n h) (CStr-cut m s (x ∷ d) (b'/' ∷ n) string),
        λ y o.
            put_off m (s + suc (length d)) 0 y (omega (arith, length-append (x ∷ d) (b'/' ∷ n), o)),
      ))

pub cut_slash-parent :
    (m : Mem) (s : ℕ) (c : List ℕ) → CStr m s c → Cut m s c (cut_slash m s (length c))
unfolding cut_slash
cut_slash-parent m s c string = elim (cut_cases c) [
  | inl (e, h) ↦
      let at_start : cut_slash m s (length c) ≡ (0, m) = rw (zero-add (length c)) at (
        cut_passes m s 0 (length c)
          (λ i lt. no_slash m s c (suc (0 + i)) string h (omega arith))) in
      rw at_start (inl (refl, refl, rw e refl))
  | inr (d, n, e, h, cut) ↦
      subst (λ t. Cut m s t (cut_slash m s (length t))) (sym e) (from_last d n (rw e at string) h)
]
  where
    from_last :
        (d n : List ℕ)
        → CStr m s (d ++ (b'/' ∷ n))
        → has b'/' n ≡ false
        → Cut m s (d ++ (b'/' ∷ n)) (cut_slash m s (length (d ++ (b'/' ∷ n))))
    from_last d n str h =
        let size : length (d ++ (b'/' ∷ n)) ≡ length d + suc (length n) =
          length-append d (b'/' ∷ n) in
        let rest = (CStr-drop m s d (b'/' ∷ n) str).2 in
        let passes : cut_slash m s (length d + suc (length n)) ≡ cut_slash m s (length d) =
          cut_passes m s (length d) (suc (length n)) (λ i lt.
            ap (λ (a : ℕ). m a == b'/') (omega arith)
            ∙ no_slash m (s + length d + 1) n i rest h (omega arith)) in
        subst (Cut m s (d ++ (b'/' ∷ n))) (sym (ap (cut_slash m s) size ∙ passes))
          (cut_slash-Cut m s d n str h)
