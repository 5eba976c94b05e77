-- ===== src/Driver/Uart/Bounds.antt =====
-- `getstr` of driver/uart.c on a typed line.

use loos_lab.Base.{
  ℕ, zero, suc, ◌%◌, ◌<◌, min, ◌≡◌, refl, ap, ◌∙◌, ◌≢◌, inl, inr, Bool, true, false, List, [], ◌∷◌,
  ◌++◌, arith, ltb, if◌then◌else◌, lt→ltb, le→ltb, ne→==, Bool-cases, length, take,
}
use loos_lab.Base.Run.{done}
use loos_lab.Driver.Uart.{getch, after_key, getstr_loop, getstr}

-- The calls of `getch` find these keys, none of which ends a line, and nothing in between.
pub data Keys : List (ℕ × ℕ) → List ℕ → Type 0 where
  none_yet : Keys [] []
  idle :
      {lsr rhr : ℕ} {reads : List (ℕ × ℕ)} {cs : List ℕ}
      → lsr % 2 ≡ 0
      → Keys reads cs
      → Keys ((lsr, rhr) ∷ reads) cs
  key :
      {lsr c : ℕ} {reads : List (ℕ × ℕ)} {cs : List ℕ}
      → lsr % 2 ≡ 1
      → (c ≢ 13) × (c ≢ 10) × (c < 256)
      → Keys reads cs
      → Keys ((lsr, c) ∷ reads) (c ∷ cs)

-- What is stored of a line, with `n` places left.
abbrev stored : ℕ → List ℕ → List ℕ × Bool
stored n cs = if ltb (length cs) n then (cs, true) else (take n cs, false)

push : ℕ → List ℕ × Bool → List ℕ × Bool
push c (str, newline) = (c ∷ str, newline)

push-stored : (n c : ℕ) (cs : List ℕ) → push c (stored n cs) ≡ stored (suc n) (c ∷ cs)
unfolding push
push-stored n c cs = elim (Bool-cases (ltb (length cs) n)) [
  | inl e ↦ rw (e, lt→ltb (suc (length cs)) (suc n) (ground arith)) refl
  | inr e ↦ rw (e, le→ltb (suc (length cs)) (suc n) (ground arith)) refl
]

kept : (c : ℕ) (s : List ℕ × Bool) → c < 256 → (c % 256 ∷ s.0, s.1) ≡ push c s
unfolding push
kept c s h = ap (λ k. (k ∷ s.0, s.1)) (omega arith)

stored_none : (cs : List ℕ) → ([], false) ≡ stored 0 cs
stored_none cs = rw (le→ltb (length cs) 0 (omega arith)) refl

getstr_loop-stored :
    {reads : List (ℕ × ℕ)} {cs : List ℕ} (rest : List (ℕ × ℕ))
    → Keys reads cs
    → (n : ℕ) → getstr_loop (reads ++ ((1, 13) ∷ rest)) n ≡ done (stored n cs)
unfolding getstr_loop getch push after_key
getstr_loop-stored rest none_yet zero = refl
getstr_loop-stored rest none_yet (suc n) = rw (lt→ltb 0 (suc n) (omega arith)) refl
getstr_loop-stored {cs = cs} rest (idle e k) zero = ap (λ s. done s) (stored_none cs)
getstr_loop-stored rest (idle e k) (suc n) = rw e (getstr_loop-stored rest k (suc n))
getstr_loop-stored {cs = cs} rest (key e c k) zero = ap (λ s. done s) (stored_none cs)
getstr_loop-stored rest (key {c = c} {cs = cs} e (a, b, small) k) (suc n) =
    rw (e, ne→== c 13 a, ne→== c 10 b, getstr_loop-stored rest k n)
      (ap (λ (v : List ℕ × Bool). done v) (kept c (stored n cs) small ∙ push-stored n c cs))

-- Of a line of typed keys, waiting in between or not, `getstr` answers the keys with the newline, if they are fewer
-- than the least of `count` and 128, and else the first of them up to that many.
pub getstr-line :
    {reads : List (ℕ × ℕ)} {cs : List ℕ} (rest : List (ℕ × ℕ)) (count : ℕ)
    → Keys reads cs
    → getstr (reads ++ ((1, 13) ∷ rest)) count
      ≡ done
          (if ltb (length cs) (min count 128) then cs ++ (b'\n' ∷ []) else take (min count 128) cs)
unfolding getstr
getstr-line {cs = cs} rest count k = elim (Bool-cases (ltb (length cs) (min count 128))) [
  | inl e ↦ rw (getstr_loop-stored rest k (min count 128), e) refl
  | inr e ↦ rw (getstr_loop-stored rest k (min count 128), e) refl
]
