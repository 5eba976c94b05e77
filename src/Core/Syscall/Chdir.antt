-- ===== src/Core/Syscall/Chdir.antt =====
-- `sys_chdir` of core/syscall.c: the current directory that it sets.

use loos_lab.Libc.Block.Laws.{memcpy-copied}
use loos_lab.Base.{
  ℕ, ◌+◌, ◌≤◌, ◌<◌, ◌≡◌, refl, sym, ap, ◌∙◌, ◌≢◌, ◌⊎◌, inl, inr, Bool, true, false, ◌&&◌, Option,
  none, some, List, [], ◌∷◌, ◌++◌, arith, ◌==◌, if◌then◌else◌, Bool-cases, length, take,
  length-append, has,
}
use loos_lab.Memory.{Mem, copied, CStr}
use loos_lab.Libc.Str.{strlen, strcpy, strcmp}
use loos_lab.Libc.Str.Copy.{strlen-CStr, CStr-move, strcpy-CStr}
use loos_lab.Libc.Str.Compare.{IsBytes, strcmp-eq_zero}
use loos_lab.Fs.Ext2.Dir.{is_zero}
use loos_lab.Core.Syscall.{get_path, cut_slash, chdir_up, argstr, chdir_to, sys_chdir}
use loos_lab.Core.Syscall.Path.{
  slash_text, is_root, full_path, copied_off, WritesOnly, keep, is_zero→eq, get_path-full_path,
}
use loos_lab.Core.Syscall.Parent.{or_root, parent, cut_cases, cut_slash-parent}
use mathlib.Core.Path.{ap₂}

abbrev pub dots_text : List ℕ
dots_text = b'.' ∷ b'.' ∷ []

abbrev pub is_dots : List ℕ → Bool
is_dots [] = false
is_dots (a ∷ []) = false
is_dots (a ∷ (b ∷ [])) = (a == b'.') && (b == b'.')
is_dots (a ∷ (b ∷ (c ∷ cs))) = false

-- The directory that `path` means from `cwd` on.
abbrev pub new_dir : (cwd path : List ℕ) → List ℕ
new_dir cwd path = if is_dots path then parent cwd else full_path cwd path

abbrev pub Apart : (a n b k : ℕ) → Type 0
Apart a n b k = (a + n ≤ b) ⊎ (b + k ≤ a)

-- The arrays of 256 bytes share no byte, and the strings that are only read lie off them.
pub record Places (addr path newpath cwd dots slash : ℕ) : Type 0 where
  pub path_newpath : Apart path 256 newpath 256
  pub path_cwd : Apart path 256 cwd 256
  pub newpath_cwd : Apart newpath 256 cwd 256
  pub addr_path : Apart addr 256 path 256
  pub dots_path : Apart dots 3 path 256
  pub dots_newpath : Apart dots 3 newpath 256
  pub dots_cwd : Apart dots 3 cwd 256
  pub slash_path : Apart slash 2 path 256
  pub slash_newpath : Apart slash 2 newpath 256
  pub slash_cwd : Apart slash 2 cwd 256

is_dots→eq : (r : List ℕ) → is_dots r ≡ true → r ≡ dots_text
is_dots→eq [] h = ground arith
is_dots→eq (a ∷ []) h = ground arith
is_dots→eq (a ∷ (b ∷ [])) h = ap₂ (λ x y. x ∷ y ∷ []) (ground arith) (ground arith)
is_dots→eq (a ∷ (b ∷ (c ∷ cs))) h = ground arith

length-parent : (c : List ℕ) → length (parent c) ≤ length c + 1
length-parent c = elim (cut_cases c) [
  | inl (e, h) ↦ rw e (omega arith)
  | inr (d, n, e, h, cut) ↦ rw cut (bound d n e)
]
  where
    bound : (d n : List ℕ) → c ≡ d ++ (b'/' ∷ n) → length (or_root (some d)) ≤ length c + 1
    bound [] n e = omega arith
    bound (x ∷ d) n e = omega (arith, ap length e, length-append (x ∷ d) (b'/' ∷ n))

pub length-full_path : (c r : List ℕ) → length (full_path c r) ≤ length c + length r + 1
length-full_path c r = elim (Bool-cases (has b'/' (take 1 r))) [
  | inl e ↦ rw e (omega arith)
  | inr e ↦ elim (Bool-cases (is_root c)) [
    | inl root ↦ rw (e, root) (omega (arith, length-append c r))
    | inr root ↦
        rw (e, root) (omega (arith, length-append c slash_text, length-append (c ++ slash_text) r))
  ]
]

length-new_dir : (c r : List ℕ) → length (new_dir c r) ≤ length c + length r + 1
length-new_dir c r = elim (Bool-cases (is_dots r)) [
  | inl e ↦ rw e (omega (arith, length-parent c))
  | inr e ↦ rw e (length-full_path c r)
]

compare_dots :
    (m : Mem) (s dots : ℕ) (r : List ℕ)
    → CStr m s r
    → CStr m dots dots_text
    → IsBytes r
    → length r < 1024
    → is_zero (strcmp m s dots) ≡ is_dots r
compare_dots m s dots r a b bytes short =
    let same =
      strcmp-eq_zero m s dots r dots_text a b bytes (omega arith, (omega arith, tt)) short in
    elim (Bool-cases (is_dots r)) [
      | inl e ↦ ap is_zero (same.1 (is_dots→eq r e)) ∙ sym e
      | inr e ↦ elim (Bool-cases (is_zero (strcmp m s dots))) [
        | inl t ↦
            let eq = same.0 (is_zero→eq (strcmp m s dots) t) in ground (arith, t, e, ap is_dots eq)
        | inr t ↦ t ∙ sym e
      ]
    ]

module _ (f : ℕ) (m m₁ m₂ : Mem) (newpath cwd slash n : ℕ) (copy : strcpy f m newpath cwd ≡ some m₁)
    (len : strlen f m₁ cwd ≡ some n) where
  up_root :
      (cut_slash m₁ newpath n).0 ≡ 0
      → (cut_slash m₁ newpath n).1 ≡ m₁
      → strcpy f m₁ newpath slash ≡ some m₂
      → chdir_up f m newpath cwd slash ≡ some m₂
  unfolding chdir_up
  up_root none_left unchanged root = ground arith

  up_cut :
      (cut_slash m₁ newpath n).0 ≢ 0
      → (cut_slash m₁ newpath n).1 ≡ m₂
      → chdir_up f m newpath cwd slash ≡ some m₂
  unfolding chdir_up
  up_cut cut rest = ground arith

module _ (f : ℕ) (m : Mem) (newpath cwd slash : ℕ) (c : List ℕ) (at_cwd : CStr m cwd c)
    (at_slash : CStr m slash slash_text) (short : length c < 256) (enough : 256 < f)
    (off_cwd : Apart newpath 256 cwd 256) (off_slash : Apart slash 2 newpath 256) where
  chdir_up-parent :
      (m' : Mem) × (chdir_up f m newpath cwd slash ≡ some m')
      × CStr m' newpath (parent c)
      × WritesOnly m m' newpath 256
  chdir_up-parent =
      let (m₁, eq₁, same₁, text₁) =
        strcpy-CStr f m newpath cwd c at_cwd (omega arith) (omega arith) in
      let cwd₁ = keep m m₁ newpath cwd (length c + 1) cwd c at_cwd same₁ (omega arith) in
      let slash₁ =
        keep m m₁ newpath cwd (length c + 1) slash slash_text at_slash same₁ (omega arith) in
      elim (cut_slash-parent m₁ newpath c text₁) [
        | inl (none_left, unchanged, up) ↦
            let (m₂, eq₂, same₂, text₂) =
              strcpy-CStr f m₁ newpath slash slash_text slash₁ (omega arith) (omega arith) in
            (
              m₂,
              up_root f m m₁ m₂ newpath cwd slash (length c) eq₁
                  (strlen-CStr f m₁ cwd c cwd₁ (omega arith)) none_left unchanged eq₂,
              rw up text₂,
              λ x o.
                  same₂ x
                  ∙ copied_off m₁ newpath slash 2 x (omega arith)
                  ∙ same₁ x
                  ∙ copied_off m newpath cwd (length c + 1) x (omega arith),
            )
        | inr (cut, text, only) ↦ (
          (cut_slash m₁ newpath (length c)).1,
          up_cut f m m₁ (cut_slash m₁ newpath (length c)).1 newpath cwd slash (length c) eq₁
              (strlen-CStr f m₁ cwd c cwd₁ (omega arith)) cut refl,
          text,
          λ x o.
              only x (omega arith)
              ∙ same₁ x
              ∙ copied_off m newpath cwd (length c + 1) x (omega arith),
        )
      ]

copied_on : (m : Mem) (dst src n i : ℕ) → i < n → copied m dst src n (dst + i) ≡ m (src + i)
unfolding copied
copied_on m dst src n i h = ground arith

-- Two copies and what stands between them.
chdir_done :
    (f : ℕ) (m₁ m₂ m₃ : Mem) (path newpath cwd dots slash : ℕ) (b : Bool)
    → is_zero (strcmp m₁ path dots) ≡ b
    → (if b then chdir_up f m₁ newpath cwd slash else get_path f m₁ cwd newpath path slash)
      ≡ some m₂
    → strcpy f m₂ cwd newpath ≡ some m₃
    → chdir_to f m₁ path newpath cwd dots slash ≡ some m₃
unfolding chdir_to
chdir_done f m₁ m₂ m₃ path newpath cwd dots slash b test branch copy =
    ap
      (λ o. elim o as (λ (x : Option Mem). Option Mem) [
        | none ↦ none
        | some m' ↦ strcpy f m' cwd newpath
      ])
      (ap
          (λ (t : Bool).
            if t then chdir_up f m₁ newpath cwd slash else get_path f m₁ cwd newpath path slash)
          test
        ∙ branch)
    ∙ copy

-- Bytes off the three arrays stay.
abbrev pub Kept : (m m' : Mem) → (path newpath cwd : ℕ) → Type 0
Kept m m' path newpath cwd =
    (x : ℕ)
    → (x < path) ⊎ (path + 256 ≤ x)
    → (x < newpath) ⊎ (newpath + 256 ≤ x)
    → (x < cwd) ⊎ (cwd + 256 ≤ x)
    → m' x ≡ m x

module _ (f : ℕ) (m : Mem) (addr path newpath cwd dots slash : ℕ) (c r : List ℕ)
    (places : Places addr path newpath cwd dots slash) (at_cwd : CStr m cwd c)
    (at_addr : CStr m addr r) (at_dots : CStr m dots dots_text) (at_slash : CStr m slash slash_text)
    (cwd_bytes : IsBytes c) (path_bytes : IsBytes r) (short : length c + length r + 2 ≤ 256)
    (enough : 256 < f) where
  open places use {
    path_newpath, path_cwd, newpath_cwd, addr_path, dots_path, slash_path, slash_newpath,
  }

  branches :
      (m₁ : Mem)
      → CStr m₁ path r
      → CStr m₁ cwd c
      → CStr m₁ slash slash_text
      → (m₂ : Mem) × ((if is_dots r
            then chdir_up f m₁ newpath cwd slash
            else get_path f m₁ cwd newpath path slash)
          ≡ some m₂)
        × CStr m₂ newpath (new_dir c r)
        × WritesOnly m₁ m₂ newpath 256
  branches m₁ path₁ cwd₁ slash₁ = elim (Bool-cases (is_dots r)) [
    | inl e ↦
        let (m₂, eq, text, only) =
          chdir_up-parent f m₁ newpath cwd slash c cwd₁ slash₁ (omega arith) enough newpath_cwd
            slash_newpath in
        (m₂, rw e eq, rw e text, only)
    | inr e ↦
        let (m₂, eq, text, only) =
          get_path-full_path f m₁ cwd newpath path slash c r cwd₁ path₁ slash₁ cwd_bytes
            (omega arith) (omega arith) (omega arith) (omega arith) (omega arith) in
        (m₂, rw e eq, rw e text, λ x o. only x (omega arith))
  ]

  -- `sys_chdir` of a terminated path sets the current directory to what the path means: its parent for "..", the path
  -- itself if it is absolute, and else the joined path, if that fits in 255 characters. Off its two arrays and the
  -- current directory nothing changes.
  pub sys_chdir-new_dir :
      (m' : Mem) × (sys_chdir f m addr path newpath cwd dots slash ≡ some m')
      × CStr m' cwd (new_dir c r)
      × Kept m m' path newpath cwd
  unfolding sys_chdir argstr
  sys_chdir-new_dir =
      let m₁ : Mem = argstr m path addr 256 in
      let same₁ = memcpy-copied m path addr 256 (omega arith) in
      let path₁ : CStr m₁ path r =
        CStr-move m m₁ addr path r at_addr
          (λ i le. same₁ (path + i) ∙ copied_on m path addr 256 i (omega arith)) in
      let cwd₁ = keep m m₁ path addr 256 cwd c at_cwd same₁ (omega arith) in
      let dots₁ = keep m m₁ path addr 256 dots dots_text at_dots same₁ (omega arith) in
      let slash₁ = keep m m₁ path addr 256 slash slash_text at_slash same₁ (omega arith) in
      let (m₂, eq₂, text₂, only₂) = branches m₁ path₁ cwd₁ slash₁ in
      let (m₃, eq₃, same₃, text₃) =
        strcpy-CStr f m₂ cwd newpath (new_dir c r) text₂ (omega (arith, length-new_dir c r))
          (omega (arith, length-new_dir c r)) in
      (
        m₃,
        chdir_done f m₁ m₂ m₃ path newpath cwd dots slash (is_dots r)
            (compare_dots m₁ path dots r path₁ dots₁ path_bytes (omega arith)) eq₂ eq₃,
        text₃,
        λ x op on oc.
            same₃ x
            ∙ copied_off m₂ cwd newpath (length (new_dir c r) + 1) x
                (omega (arith, length-new_dir c r))
            ∙ only₂ x on
            ∙ same₁ x
            ∙ copied_off m path addr 256 x op,
      )
