-- ===== src/Core/Syscall/Path.antt =====
-- `get_path` of core/syscall.c: the path that a process means.

use loos_lab.Base.{
  ℕ, ◌+◌, ◌≤◌, ◌<◌, ◌≡◌, refl, sym, ap, ◌∙◌, ◌⊎◌, inl, inr, Bool, true, false, some, List, [], ◌∷◌,
  ◌++◌, arith, ◌==◌, if◌then◌else◌, Bool-cases, length, take, length-append, has,
}
use loos_lab.Base.Int.{ℤ, pos, negsuc}
use loos_lab.Memory.{Mem, copied, ◌≗◌, CStr}
use loos_lab.Libc.Str.{strcpy, strcat, strcmp}
use loos_lab.Libc.Str.Copy.{CStr-move, strcpy-CStr, strcat-append}
use loos_lab.Libc.Str.Compare.{IsBytes, strcmp-eq_zero}
use loos_lab.Fs.Ext2.Dir.{is_zero}
use loos_lab.Core.Syscall.{get_path}

abbrev pub slash_text : List ℕ
slash_text = b'/' ∷ []

abbrev pub is_root : List ℕ → Bool
is_root [] = false
is_root (c ∷ []) = c == b'/'
is_root (c ∷ (d ∷ cs)) = false

-- What `get_path` should put in the buffer: an absolute path as it is, a relative one behind the current
-- directory and a slash, which "/" itself has already.
abbrev pub full_path : (cwd ref_path : List ℕ) → List ℕ
full_path cwd ref_path =
    if has b'/' (take 1 ref_path)
    then ref_path
    else if is_root cwd
    then cwd ++ ref_path
    else cwd ++ slash_text ++ ref_path

pub copied_off :
    (m : Mem) (dst src n x : ℕ) → (x < dst) ⊎ (dst + n ≤ x) → copied m dst src n x ≡ m x
unfolding copied
copied_off m dst src n x o = ground arith

-- No byte changes but the `n` bytes from `a` on.
abbrev pub WritesOnly : (m m' : Mem) → (a n : ℕ) → Type 0
WritesOnly m m' a n = (x : ℕ) → (x < a) ⊎ (a + n ≤ x) → m' x ≡ m x

-- A string off the target of a copy stays.
pub keep :
    (m m' : Mem) (dst src n s : ℕ) (xs : List ℕ)
    → CStr m s xs
    → (m' ≗ copied m dst src n)
    → (s + length xs < dst) ⊎ (dst + n ≤ s)
    → CStr m' s xs
keep m m' dst src n s xs c h o =
    CStr-move m m' s s xs c (λ i le. h (s + i) ∙ copied_off m dst src n (s + i) (omega arith))

pub is_root→eq : (c : List ℕ) → is_root c ≡ true → c ≡ slash_text
is_root→eq [] h = ground arith
is_root→eq (x ∷ []) h = ap (λ k. k ∷ []) (ground arith)
is_root→eq (x ∷ (y ∷ ys)) h = ground arith

pub is_zero→eq : (z : ℤ) → is_zero z ≡ true → z ≡ pos 0
is_zero→eq (pos n) h = ap pos (ground arith)
is_zero→eq (negsuc n) h = ground arith

slash-IsBytes : IsBytes slash_text
slash-IsBytes = (omega arith, tt)

first_char : (m : Mem) (s : ℕ) (xs : List ℕ) → CStr m s xs → (m s == b'/') ≡ has b'/' (take 1 xs)
first_char m s [] c = ground (arith, c)
first_char m s (x ∷ xs) c = ground (arith, c.0)

module _ (f : ℕ) (m m₁ : Mem) (cwd buf ref_path slash : ℕ) where
  joined :
      (m₂ m₃ : Mem)
      → (m ref_path == b'/') ≡ false
      → strcpy f m buf cwd ≡ some m₁
      → is_zero (strcmp m₁ cwd slash) ≡ false
      → strcat f m₁ buf slash ≡ some m₂
      → strcat f m₂ buf ref_path ≡ some m₃
      → get_path f m cwd buf ref_path slash ≡ some m₃
  unfolding get_path
  joined m₂ m₃ e eq₁ test eq₂ eq₃ = rw (e, eq₁, test, eq₂, eq₃) refl

  joined_root :
      (m₂ : Mem)
      → (m ref_path == b'/') ≡ false
      → strcpy f m buf cwd ≡ some m₁
      → is_zero (strcmp m₁ cwd slash) ≡ true
      → strcat f m₁ buf ref_path ≡ some m₂
      → get_path f m cwd buf ref_path slash ≡ some m₂
  unfolding get_path
  joined_root m₂ e eq₁ test eq₂ = rw (e, eq₁, test, eq₂) refl

module _ (f : ℕ) (m : Mem) (cwd buf ref_path slash : ℕ) (c r : List ℕ) (at_cwd : CStr m cwd c)
    (at_ref : CStr m ref_path r) (at_slash : CStr m slash slash_text) (bytes : IsBytes c)
    (short : length c < 1024)
    (off_cwd : (cwd + length c < buf) ⊎ (buf + length c + length r + 2 ≤ cwd))
    (off_ref : (ref_path + length r < buf) ⊎ (buf + length c + length r + 2 ≤ ref_path))
    (off_slash : (slash + 1 < buf) ⊎ (buf + length c + length r + 2 ≤ slash))
    (enough : length c + length r + 1 < f) where
  -- The comparison with "/" in a memory where both strings stand.
  compare_root :
      (m₁ : Mem)
      → CStr m₁ cwd c
      → CStr m₁ slash slash_text
      → is_zero (strcmp m₁ cwd slash) ≡ is_root c
  compare_root m₁ a b = elim (Bool-cases (is_root c)) [
    | inl e ↦
        ap is_zero (
          (strcmp-eq_zero m₁ cwd slash c slash_text a b bytes slash-IsBytes short).1
            (is_root→eq c e))
        ∙ sym e
    | inr e ↦ elim (Bool-cases (is_zero (strcmp m₁ cwd slash))) [
      | inl t ↦
          let same =
            (strcmp-eq_zero m₁ cwd slash c slash_text a b bytes slash-IsBytes short).0
              (is_zero→eq (strcmp m₁ cwd slash) t) in
          ground (arith, t, e, ap is_root same)
      | inr t ↦ t ∙ sym e
    ]
  ]

  relative :
      has b'/' (take 1 r) ≡ false
      → (m' : Mem) × (get_path f m cwd buf ref_path slash ≡ some m')
        × CStr m' buf (full_path c r)
        × WritesOnly m m' buf (length c + length r + 2)
  unfolding get_path
  relative e =
      let (m₁, eq₁, same₁, text₁) = strcpy-CStr f m buf cwd c at_cwd (omega arith) (omega arith) in
      let ref₁ = keep m m₁ buf cwd (length c + 1) ref_path r at_ref same₁ (omega arith) in
      let cwd₁ = keep m m₁ buf cwd (length c + 1) cwd c at_cwd same₁ (omega arith) in
      let slash₁ = keep m m₁ buf cwd (length c + 1) slash slash_text at_slash same₁ (omega arith) in
      let test = compare_root m₁ cwd₁ slash₁ in
      let begin = first_char m ref_path r at_ref in
      elim (Bool-cases (is_root c)) [
        | inl root ↦
            let (m₂, eq₂, text₂, same₂) =
              strcat-append f m₁ buf ref_path c r text₁ ref₁ (omega arith) (omega arith)
                (omega arith) in
            (
              m₂,
              joined_root f m m₁ cwd buf ref_path slash m₂ (begin ∙ e) eq₁ (test ∙ root) eq₂,
              rw (e, root) text₂,
              λ x o.
                  same₂ x
                  ∙ copied_off m₁ (buf + length c) ref_path (length r + 1) x (omega arith)
                  ∙ same₁ x
                  ∙ copied_off m buf cwd (length c + 1) x (omega arith),
            )
        | inr root ↦
            let (m₂, eq₂, text₂, same₂) =
              strcat-append f m₁ buf slash c slash_text text₁ slash₁ (omega arith) (omega arith)
                (omega arith) in
            let ref₂ = keep m₁ m₂ (buf + length c) slash 2 ref_path r ref₁ same₂ (omega arith) in
            let (m₃, eq₃, text₃, same₃) =
              strcat-append f m₂ buf ref_path (c ++ slash_text) r text₂ ref₂
                (omega (arith, length-append c slash_text))
                (omega (arith, length-append c slash_text)) (omega arith) in
            (
              m₃,
              joined f m m₁ cwd buf ref_path slash m₂ m₃ (begin ∙ e) eq₁ (test ∙ root) eq₂ eq₃,
              rw (e, root) text₃,
              λ x o.
                  same₃ x
                  ∙ copied_off m₂ (buf + length (c ++ slash_text)) ref_path (length r + 1) x
                      (omega (arith, length-append c slash_text))
                  ∙ same₂ x
                  ∙ copied_off m₁ (buf + length c) slash 2 x (omega arith)
                  ∙ same₁ x
                  ∙ copied_off m buf cwd (length c + 1) x (omega arith),
            )
      ]

  absolute :
      has b'/' (take 1 r) ≡ true
      → (m' : Mem) × (get_path f m cwd buf ref_path slash ≡ some m')
        × CStr m' buf (full_path c r)
        × WritesOnly m m' buf (length c + length r + 2)
  unfolding get_path
  absolute e =
      let (m₁, eq₁, same₁, text₁) =
        strcpy-CStr f m buf ref_path r at_ref (omega arith) (omega arith) in
      (
        m₁,
        ground (arith, e, first_char m ref_path r at_ref, eq₁),
        rw e text₁,
        λ x o. same₁ x ∙ copied_off m buf ref_path (length r + 1) x (omega arith),
      )

  -- `get_path` of a terminated path, for a current directory of less than 1024 bytes, with a buffer off all the strings,
  -- puts the full path in the buffer: the path itself if it is absolute, and else the current directory, a
  -- slash unless that is "/", and the path; nothing is written elsewhere.
  pub get_path-full_path :
      (m' : Mem) × (get_path f m cwd buf ref_path slash ≡ some m')
      × CStr m' buf (full_path c r)
      × WritesOnly m m' buf (length c + length r + 2)
  get_path-full_path = elim (Bool-cases (has b'/' (take 1 r))) [
    | inl e ↦ absolute e
    | inr e ↦ relative e
  ]
