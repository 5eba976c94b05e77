-- ===== src/Libc/Str/Tok.antt =====
-- `strspn`, `strcspn` and `strtok` of lolibc/string.c on terminated strings.
use native.Mathlib.Nat.{add-zero}
use mathlib.Core.Path.{subst}
use loos_lab.Base.{
  ℕ, zero, suc, ◌+◌, ◌-◌, ◌≤◌, ◌<◌, ◌≡◌, refl, sym, ap, ◌∙◌, ◌≢◌, ◌⊎◌, inl, inr, Bool, true, false,
  some, List, [], ◌∷◌, arith, ◌==◌, if◌then◌else◌, Bool-cases, length, take, drop, List-cases,
}
use loos_lab.Memory.{Mem, put, ◌≗◌, CStr}
use loos_lab.Libc.Str.Copy.{CStr-put}
use loos_lab.Libc.Str.{in_str, span_loop, strspn, strcspn, TokenResult, cut_token, strtok}

abbrev pub contains : List ℕ → ℕ → Bool
contains [] c = false
contains (d ∷ ds) c = if c == d then true else contains ds c

in_str-contains :
    (f : ℕ) (m : Mem) (c a : ℕ) (ds : List ℕ)
    → CStr m a ds
    → length ds < f
    → in_str f m c a ≡ some (contains ds c)
unfolding in_str
in_str-contains zero m c a ds s h = absurd (omega arith)
in_str-contains (suc f) m c a [] s h = ground arith
in_str-contains (suc f) m c a (d ∷ ds) s h =
    ground (arith, in_str-contains f m c (a + 1) ds s.2 (omega arith))

-- How many characters at the front of `xs` are members of `ds` (`want` true) or not.
abbrev pub prefix_length : Bool → List ℕ → List ℕ → ℕ
prefix_length want ds [] = 0
prefix_length true ds (x ∷ xs) = if contains ds x then suc (prefix_length true ds xs) else 0
prefix_length false ds (x ∷ xs) = if contains ds x then 0 else suc (prefix_length false ds xs)

span_loop-prefix :
    (want : Bool) (g f : ℕ) (m : Mem) (p chars count : ℕ) (xs ds : List ℕ)
    → CStr m p xs
    → CStr m chars ds
    → length ds < g
    → length xs < f
    → span_loop want g f m p chars count ≡ some (count + prefix_length want ds xs)
unfolding span_loop
span_loop-prefix want g zero m p chars count xs ds s d hg h = absurd (omega arith)
span_loop-prefix want g (suc f) m p chars count [] ds s d hg h = ground arith
span_loop-prefix true g (suc f) m p chars count (x ∷ xs) ds s d hg h =
    let ih = span_loop-prefix true g f m (p + 1) chars (count + 1) xs ds s.2 d hg (omega arith) in
    ground (arith, ih, in_str-contains g m x chars ds d hg)
span_loop-prefix false g (suc f) m p chars count (x ∷ xs) ds s d hg h =
    let ih = span_loop-prefix false g f m (p + 1) chars (count + 1) xs ds s.2 d hg (omega arith) in
    ground (arith, ih, in_str-contains g m x chars ds d hg)

module _ (f : ℕ) (m : Mem) (s chars : ℕ) (xs ds : List ℕ) (string : CStr m s xs)
    (delims : CStr m chars ds) (room : length ds < f) (fuel : length xs < f) where
  -- `strspn` is the length of the longest front part of `xs` of characters of `ds`, and `strcspn`
  -- that of the longest front part with none of them.
  pub span_lem :
      (strspn f m s chars ≡ some (prefix_length true ds xs))
      × (strcspn f m s chars ≡ some (prefix_length false ds xs))
  unfolding strspn strcspn
  span_lem = (
    span_loop-prefix true f f m s chars 0 xs ds string delims room fuel ∙ ap some (omega arith),
    span_loop-prefix false f f m s chars 0 xs ds string delims room fuel ∙ ap some (omega arith),
  )

CStr-drop :
    (m : Mem) (s n : ℕ) (xs : List ℕ) → CStr m s xs → n ≤ length xs → CStr m (s + n) (drop n xs)
CStr-drop m s zero xs c h = rw (add-zero s) c
CStr-drop m s (suc n) [] c h = absurd (omega arith)
CStr-drop m s (suc n) (x ∷ xs) c h = rw shift (CStr-drop m (s + 1) n xs c.2 (omega arith))
  where
    shift : s + suc n ≡ s + 1 + n
    shift = omega arith

length-drop : (n : ℕ) (xs : List ℕ) → length (drop n xs) ≡ length xs - n
length-drop zero xs = omega arith
length-drop (suc n) [] = omega arith
length-drop (suc n) (x ∷ xs) = omega (arith, length-drop n xs)

prefix_length-le : (want : Bool) (ds xs : List ℕ) → prefix_length want ds xs ≤ length xs
prefix_length-le want ds [] = omega arith
prefix_length-le true ds (x ∷ xs) = ground (arith, prefix_length-le true ds xs)
prefix_length-le false ds (x ∷ xs) = ground (arith, prefix_length-le false ds xs)

-- A terminator written over character `n` leaves the first `n` characters as a string.
CStr-take :
    (m : Mem) (s n : ℕ) (xs : List ℕ)
    → CStr m s xs
    → n ≤ length xs
    → CStr (put m (s + n) 0) s (take n xs)
unfolding put
CStr-take m s zero xs c h = ground arith
CStr-take m s (suc n) [] c h = absurd (omega arith)
CStr-take m s (suc n) (x ∷ xs) c h = (
  ground arith,
  c.1,
  subst (λ a. CStr (put m a 0) (s + 1) (take n xs)) (sym shift)
      (CStr-take m (s + 1) n xs c.2 (omega arith)),
)
  where
    shift : s + suc n ≡ s + 1 + n
    shift = omega arith

-- A character that is zero is the end of the string.
take_all :
    (m : Mem) (s n : ℕ) (xs : List ℕ)
    → CStr m s xs
    → n ≤ length xs
    → m (s + n) ≡ 0
    → (take n xs ≡ xs) × (drop (suc n) xs ≡ [])
take_all m s zero [] c h e = (refl, refl)
take_all m s zero (x ∷ xs) c h e = absurd (c.1 (ground arith))
take_all m s (suc n) [] c h e = absurd (omega arith)
take_all m s (suc n) (x ∷ xs) c h e = ground (arith, take_all m (s + 1) n xs c.2 (omega arith))

-- Behind a character that is not zero the string goes on.
CStr-behind :
    (m : Mem) (s n : ℕ) (xs : List ℕ)
    → CStr m s xs
    → n ≤ length xs
    → m (s + n) ≢ 0
    → CStr m (s + n + 1) (drop (suc n) xs)
CStr-behind m s zero [] c h e = absurd (e (ground arith))
CStr-behind m s zero (x ∷ xs) c h e = rw (add-zero s) c.2
CStr-behind m s (suc n) [] c h e = absurd (omega arith)
CStr-behind m s (suc n) (x ∷ xs) c h e =
    subst (λ a. CStr m (a + 1) (drop (suc n) xs)) (sym shift)
      (CStr-behind m (s + 1) n xs c.2 (omega arith) (λ z. e (ground arith)))
  where
    shift : s + suc n ≡ s + 1 + n
    shift = omega arith

-- The first token of `xs` behind the leading delimiters, and what is left behind its delimiter.
abbrev pub skipped : List ℕ → List ℕ → List ℕ
skipped ds xs = drop (prefix_length true ds xs) xs

abbrev pub token : List ℕ → List ℕ → List ℕ
token ds xs = take (prefix_length false ds (skipped ds xs)) (skipped ds xs)

abbrev pub behind : List ℕ → List ℕ → List ℕ
behind ds xs = drop (suc (prefix_length false ds (skipped ds xs))) (skipped ds xs)

-- What a call of `strtok` on the string `xs` at `s` leaves: with only delimiters left it answers
-- NULL and forgets the string; otherwise the token stands terminated at the answer, and `lasts`
-- points at what follows its delimiter.
abbrev pub Splits : Mem → ℕ → List ℕ → List ℕ → TokenResult → Type 0
Splits m s ds xs r =
    ((skipped ds xs ≡ []) × (r.start ≡ 0) × (r.lasts ≡ 0) × (r.mem ≗ m))
    ⊎ ((skipped ds xs ≢ [])
        × (r.start ≡ s + prefix_length true ds xs)
        × CStr r.mem r.start (token ds xs)
        × CStr r.mem r.lasts (behind ds xs))

cut_token-Splits :
    (m : Mem) (s n : ℕ) (xs : List ℕ)
    → CStr m s xs
    → n ≤ length xs
    → let r = cut_token m s (s + n) in
      (r.start ≡ s) × CStr r.mem s (take n xs) × CStr r.mem r.lasts (drop (suc n) xs)
unfolding cut_token
cut_token-Splits m s n xs c h = elim (Bool-cases (m (s + n) == 0)) [
  | inl ends ↦
      let (all, rest) = take_all m s n xs c h (ground arith) in
      rw (ends, all, rest) (refl, c, ground arith)
  | inr more ↦ rw more (
    refl,
    CStr-take m s n xs c h,
    CStr-put m (s + n + 1) (s + n) 0 (drop (suc n) xs) (CStr-behind m s n xs c h (ground arith))
        (omega arith),
  )
]

module _ (f : ℕ) (m : Mem) (s str lasts chars : ℕ) (xs ds : List ℕ) (string : CStr m s xs)
    (delims : CStr m chars ds) (room : length ds < f) (fuel : length xs < f)
    (from : (if str == 0 then lasts else str) ≡ s) (live : s ≢ 0) where
  -- `strtok`, given a terminated string or resuming at its saved pointer, skips leading delimiters,
  -- answers the next token, terminated, and saves where the rest starts; NULL when none is left.
  pub strtok-Splits : (r : TokenResult) × (strtok f m lasts str chars ≡ some r) × Splits m s ds xs r
  unfolding strtok
  strtok-Splits = elim (List-cases rest) [
    | inl over ↦ (
      record { start = 0; mem = m; lasts = 0 },
      ground (arith, skip, rw over at left),
      inl (over, refl, refl, λ x. refl),
    )
    | inr (x, more, here) ↦
        let left' : CStr m begin (x ∷ more) = rw here at left in
        let (starts, tok, saved) = cut_token-Splits m begin len rest left len-le in
        (
          cut_token m begin (begin + len),
          ground (arith, skip, left', span),
          inr (λ e. ground arith, starts, rw starts tok, saved),
        )
  ]
    where
      begin : ℕ
      begin = s + prefix_length true ds xs

      rest : List ℕ
      rest = skipped ds xs

      len : ℕ
      len = prefix_length false ds rest

      left : CStr m begin rest
      left = CStr-drop m s (prefix_length true ds xs) xs string (prefix_length-le true ds xs)

      len-le : len ≤ length rest
      len-le = prefix_length-le false ds rest

      skip : strspn f m s chars ≡ some (prefix_length true ds xs)
      skip = (span_lem f m s chars xs ds string delims room fuel).0

      span : strcspn f m begin chars ≡ some len
      span =
          (span_lem f m begin chars rest ds left delims room
            (omega (arith, fuel, length-drop (prefix_length true ds xs) xs))).1
