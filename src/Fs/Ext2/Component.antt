-- ===== src/Fs/Ext2/Component.antt =====
-- `parse_path_component` of fs/ext2.c on a path in memory.

use mathlib.Core.Path.{subst}
use loos_lab.Base.{
  ℕ, zero, suc, ◌+◌, ◌≤◌, ◌<◌, ◌≡◌, refl, ap, ◌∙◌, true, false, ◌||◌, List, [], ◌∷◌, ◌++◌, arith,
  ◌==◌, eq→==, length, take, replicate, has, length-replicate,
}
use loos_lab.Base.Run.{done}
use loos_lab.Memory.{Mem, CStr}
use loos_lab.Fs.Ext2.Dir.{skip_slashes, component_loop, parse_path_component}

skip_slashes_lem :
    (fuel : ℕ) (m : Mem) (p n : ℕ) (xs : List ℕ)
    → CStr m p (replicate n b'/' ++ xs)
    → has b'/' (take 1 xs) ≡ false
    → n < fuel
    → skip_slashes fuel m p ≡ done (p + n)
unfolding skip_slashes
skip_slashes_lem zero m p n xs s h lt = absurd (omega arith)
skip_slashes_lem (suc f) m p zero [] s h lt = ground arith
skip_slashes_lem (suc f) m p zero (x ∷ xs) s h lt = ground arith
skip_slashes_lem (suc f) m p (suc n) xs s h lt =
    rw (s.0)
      (skip_slashes_lem f m (p + 1) n xs s.2 h (omega arith) ∙ ap (λ k. done k) (omega arith))

CStr-behind : (m : Mem) (p : ℕ) (xs ys : List ℕ) → CStr m p (xs ++ ys) → CStr m (p + length xs) ys
CStr-behind m p [] ys s = subst (λ a. CStr m a ys) (omega arith) s
CStr-behind m p (x ∷ xs) ys s =
    subst (λ a. CStr m a ys) (omega arith) (CStr-behind m (p + 1) xs ys s.2)

-- A component is followed by the end of the path or by a slash.
abbrev pub Ends : List ℕ → Type 0
Ends [] = Unit
Ends (c ∷ rest) = c ≡ b'/'

component_loop_lem :
    (room : ℕ) (m : Mem) (p : ℕ) (name rest : List ℕ)
    → CStr m p (name ++ rest)
    → has b'/' name ≡ false
    → Ends rest
    → length name ≤ room
    → component_loop room m p ≡ (name, p + length name)
unfolding component_loop
component_loop_lem zero m p [] rest s h e le = ap (λ k. ([], k)) (omega arith)
component_loop_lem zero m p (x ∷ name) rest s h e le = absurd (omega arith)
component_loop_lem (suc room) m p [] [] s h e le =
    rw (eq→== (m p) 0 s) (ap (λ k. ([], k)) (omega arith))
component_loop_lem (suc room) m p [] (c ∷ rest) s h e le = rw stop (ap (λ k. ([], k)) (omega arith))
  where
    stop : (m p == 0 || m p == b'/') ≡ true
    stop = ground (arith, s.0, e)
component_loop_lem (suc room) m p (x ∷ name) rest s h e le =
    rw (inner, component_loop_lem room m (p + 1) name rest s.2 (ground arith) e (omega arith), s.0)
      (ap (λ k. (x ∷ name, k)) (omega arith))
  where
    inner : (m p == 0 || m p == b'/') ≡ false
    inner = ground (arith, s.0, s.1)

-- On a path of slashes, a component of at most 255 characters and what follows it, `parse_path_component` answers
-- the component and leaves the path at what follows.
pub parse_path_component_lem :
    (fuel : ℕ) (m : Mem) (path n : ℕ) (name rest : List ℕ)
    → CStr m path (replicate n b'/' ++ (name ++ rest))
    → has b'/' name ≡ false
    → Ends rest
    → 0 < length name
    → length name ≤ 255
    → n < fuel
    → (parse_path_component fuel m path ≡ done (name, path + n + length name))
      × CStr m (path + n + length name) rest
unfolding parse_path_component
parse_path_component_lem fuel m path n name rest s h e lt le enough = (
  rw
      (
        skip_slashes_lem fuel m path n (name ++ rest) s (begins name h lt) (omega arith),
        component_loop_lem 255 m (path + n) name rest (behind_slashes s) h e le,
      )
      refl,
  CStr-behind m (path + n) name rest (behind_slashes s),
)
  where
    behind_slashes :
        CStr m path (replicate n b'/' ++ (name ++ rest)) → CStr m (path + n) (name ++ rest)
    behind_slashes s =
        subst (λ k. CStr m (path + k) (name ++ rest)) (length-replicate n b'/')
          (CStr-behind m path (replicate n b'/') (name ++ rest) s)

    begins :
        (name : List ℕ)
        → has b'/' name ≡ false
        → 0 < length name
        → has b'/' (take 1 (name ++ rest)) ≡ false
    begins [] h lt = absurd (omega arith)
    begins (x ∷ xs) h lt = ground arith
