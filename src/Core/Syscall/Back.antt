-- ===== src/Core/Syscall/Back.antt =====
-- `sys_chdir` of core/syscall.c into a directory and up again.

use loos_lab.Base.{
  ℕ, ◌+◌, ◌≤◌, ◌<◌, ◌≡◌, refl, sym, ap, ◌∙◌, inl, inr, false, some, List, [], ◌∷◌, ◌++◌, arith,
  Bool-cases, length, take, has,
}
use loos_lab.Memory.{Mem, CStr}
use loos_lab.Libc.Str.Copy.{CStr-move}
use loos_lab.Libc.Str.Compare.{IsBytes}
use loos_lab.Core.Syscall.{sys_chdir}
use loos_lab.Core.Syscall.Path.{slash_text, is_root, full_path, is_root→eq}
use loos_lab.Core.Syscall.Parent.{or_root, parent, cut_last-append}
use loos_lab.Core.Syscall.Chdir.{
  dots_text, is_dots, Apart, Places, length-full_path, Kept, sys_chdir-new_dir,
}

append_slash : (c n : List ℕ) → (c ++ slash_text) ++ n ≡ c ++ (b'/' ∷ n)
append_slash [] n = refl
append_slash (x ∷ c) n = ap (λ t. x ∷ t) (append_slash c n)

relative_name : (n : List ℕ) → has b'/' n ≡ false → has b'/' (take 1 n) ≡ false
relative_name [] h = refl
relative_name (x ∷ n) h = ground arith

-- Going up from a directory that was entered by its name leads back.
parent-full_path : (c n : List ℕ) → 0 < length c → has b'/' n ≡ false → parent (full_path c n) ≡ c
parent-full_path [] n some_text h = absurd (omega arith)
parent-full_path (x ∷ c) n some_text h = elim (Bool-cases (is_root (x ∷ c))) [
  | inl root ↦
      rw (relative_name n h, root)
        (ap (λ t. parent (t ++ n)) (is_root→eq (x ∷ c) root)
          ∙ ap or_root (cut_last-append [] n h)
          ∙ sym (is_root→eq (x ∷ c) root))
  | inr root ↦
      rw (relative_name n h, root)
        (ap parent (append_slash (x ∷ c) n) ∙ ap or_root (cut_last-append (x ∷ c) n h))
]

IsBytes-append : (xs ys : List ℕ) → IsBytes xs → IsBytes ys → IsBytes (xs ++ ys)
IsBytes-append [] ys b d = d
IsBytes-append (x ∷ xs) ys b d = (b.0, IsBytes-append xs ys b.1 d)

full_path-IsBytes : (c n : List ℕ) → IsBytes c → IsBytes n → IsBytes (full_path c n)
full_path-IsBytes c n b d = elim (Bool-cases (has b'/' (take 1 n))) [
  | inl e ↦ rw e d
  | inr e ↦ elim (Bool-cases (is_root c)) [
    | inl root ↦ rw (e, root) (IsBytes-append c n b d)
    | inr root ↦
        rw (e, root)
          (IsBytes-append (c ++ slash_text) n (IsBytes-append c slash_text b (omega arith, tt)) d)
  ]
]

CStr-Kept :
    (m m' : Mem) (path newpath cwd s : ℕ) (xs : List ℕ)
    → Kept m m' path newpath cwd
    → CStr m s xs
    → Apart s (length xs + 1) path 256
    → Apart s (length xs + 1) newpath 256
    → Apart s (length xs + 1) cwd 256
    → CStr m' s xs
CStr-Kept m m' path newpath cwd s xs kept string p n c =
    CStr-move m m' s s xs string (λ i le. kept (s + i) (omega arith) (omega arith) (omega arith))

module _ (f : ℕ) (m : Mem) (addr up path newpath cwd dots slash : ℕ) (c n : List ℕ)
    (places : Places addr path newpath cwd dots slash) (at_cwd : CStr m cwd c)
    (at_addr : CStr m addr n) (at_up : CStr m up dots_text) (at_dots : CStr m dots dots_text)
    (at_slash : CStr m slash slash_text) (cwd_bytes : IsBytes c) (name_bytes : IsBytes n)
    (some_text : 0 < length c) (name : has b'/' n ≡ false) (not_dots : is_dots n ≡ false)
    (short : length c + length n + 5 ≤ 256) (enough : 256 < f) (up_path : Apart up 256 path 256)
    (up_newpath : Apart up 3 newpath 256) (up_cwd : Apart up 3 cwd 256) where
  again : Places up path newpath cwd dots slash
  again = record {
    path_newpath = places.path_newpath;
    path_cwd = places.path_cwd;
    newpath_cwd = places.newpath_cwd;
    addr_path = up_path;
    dots_path = places.dots_path;
    dots_newpath = places.dots_newpath;
    dots_cwd = places.dots_cwd;
    slash_path = places.slash_path;
    slash_newpath = places.slash_newpath;
    slash_cwd = places.slash_cwd;
  }

  -- Entering a directory by a name without a slash, other than "..", and going up by ".." leads back to a current
  -- directory that is not empty, if the two names together have at most 251 bytes.
  pub sys_chdir-back :
      (m' m'' : Mem) × (sys_chdir f m addr path newpath cwd dots slash ≡ some m')
      × CStr m' cwd (full_path c n)
      × (sys_chdir f m' up path newpath cwd dots slash ≡ some m'')
      × CStr m'' cwd c
  sys_chdir-back =
      let (m', eq', text', kept') =
        sys_chdir-new_dir f m addr path newpath cwd dots slash c n places at_cwd at_addr at_dots
          at_slash cwd_bytes name_bytes (omega arith) enough in
      let inside : CStr m' cwd (full_path c n) = rw not_dots at text' in
      let (m'', eq'', text'', _) =
        sys_chdir-new_dir f m' up path newpath cwd dots slash (full_path c n) dots_text again inside
          (CStr-Kept m m' path newpath cwd up dots_text kept' at_up (omega arith) up_newpath up_cwd)
          (CStr-Kept m m' path newpath cwd dots dots_text kept' at_dots places.dots_path
            places.dots_newpath places.dots_cwd)
          (CStr-Kept m m' path newpath cwd slash slash_text kept' at_slash places.slash_path
            places.slash_newpath places.slash_cwd)
          (full_path-IsBytes c n cwd_bytes name_bytes) (omega arith, (omega arith, tt))
          (omega (arith, length-full_path c n)) enough in
      (m', m'', eq', inside, eq'', rw (parent-full_path c n some_text name) at text'')
