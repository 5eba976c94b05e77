-- ===== src/Fs/Ext2/Path.antt =====
-- `ext2_path_lookup` of fs/ext2.c against the resolution of a path component by component.

use mathlib.Core.Path.{}
use loos_lab.Base.{
  ℕ, zero, suc, ◌+◌, ◌≤◌, ◌<◌, ◌≡◌, refl, true, false, some, List, [], ◌∷◌, ◌++◌, arith, eq→==,
  ne→==, length, has,
}
use loos_lab.Base.Int.{pos}
use loos_lab.Base.Run.{done}
use loos_lab.Memory.{Mem, CStr}
use loos_lab.Fs.Ext2.{Ext2Fs, Machine, ext2_get_inode}
use loos_lab.Fs.Ext2.Dir.{
  parse_path_component, find_dir_entry, is_dir, lookup_loop, ext2_path_lookup,
}
use loos_lab.Fs.Ext2.Component.{Ends, parse_path_component_lem}

-- A name that stands as one component: not empty, no slash, at most 255 characters.
abbrev pub IsComponent : List ℕ → Type 0
IsComponent name = (has b'/' name ≡ false) × (0 < length name) × (length name ≤ 255)

abbrev pub AllComponents : List (List ℕ) → Type 0
AllComponents [] = Unit
AllComponents (name ∷ names) = IsComponent name × AllComponents names

-- The path of these names: a slash before each.
abbrev pub path_text : List (List ℕ) → List ℕ
path_text [] = []
path_text (name ∷ names) = b'/' ∷ (name ++ path_text names)

-- Following the names from one inode leads to another: each is found in a directory, and its inode is read.
pub data Resolves (fuel : ℕ) (m : Machine) (fs : Ext2Fs) : Mem → List (List ℕ) → Mem → Type 0 where
  here : {inode : Mem} → Resolves fuel m fs inode [] inode
  into :
      {inode inode' last : Mem} {names : List (List ℕ)} (name : List ℕ) (ino : ℕ)
      → is_dir inode ≡ true
      → find_dir_entry fuel m fs inode name ≡ done (some ino)
      → ext2_get_inode m fs ino inode ≡ done (pos 0, inode')
      → Resolves fuel m fs inode' names last
      → Resolves fuel m fs inode (name ∷ names) last

Ends-path_text : (names : List (List ℕ)) → Ends (path_text names)
Ends-path_text [] = tt
Ends-path_text (name ∷ names) = refl

parse_next :
    (fuel : ℕ) (mem : Mem) (p : ℕ) (name : List ℕ) (names : List (List ℕ))
    → CStr mem p (path_text (name ∷ names))
    → IsComponent name
    → 2 ≤ fuel
    → (parse_path_component fuel mem p ≡ done (name, p + 1 + length name))
      × CStr mem (p + 1 + length name) (path_text names)
parse_next fuel mem p name names s c le =
    parse_path_component_lem fuel mem p 1 name (path_text names) s c.0 (Ends-path_text names) c.1
      c.2 (omega arith)

lookup_loop-Resolves :
    {m : Machine} {fs : Ext2Fs} {inode last : Mem} {names : List (List ℕ)} (rounds fuel : ℕ)
    (mem : Mem) (p : ℕ)
    → Resolves fuel m fs inode names last
    → CStr mem p (path_text names)
    → AllComponents names
    → 2 ≤ fuel
    → length names < rounds
    → lookup_loop rounds fuel m fs mem p inode ≡ done (pos 0, last)
unfolding lookup_loop
lookup_loop-Resolves zero fuel mem p r s c le lt = absurd (omega arith)
lookup_loop-Resolves (suc n) fuel mem p here s c le lt = rw (eq→== (mem p) 0 s) refl
lookup_loop-Resolves (suc n) fuel mem p (into {names = names} name ino dir found read r) s c le lt =
    let (eq, next) = parse_next fuel mem p name names s c.0 le in
    rw
      (
        ne→== (mem p) 0 (ground (arith, s.0)),
        eq,
        ne→== (length name) 0 (omega (arith, c.0.1)),
        dir,
        found,
        read,
      )
      (lookup_loop-Resolves n fuel mem (p + 1 + length name) r next c.1 le (omega arith))

-- `ext2_path_lookup` of a path of names, each of 1 to 255 characters and with a slash before it, answers 0 and
-- the inode to which following the names from the root leads, within a round for each name and the last test.
pub ext2_path_lookup-Resolves :
    {m : Machine} {fs : Ext2Fs} {root last : Mem} {names : List (List ℕ)} (fuel : ℕ) (mem : Mem)
    (path : ℕ) (stale result : Mem)
    → ext2_get_inode m fs 2 stale ≡ done (pos 0, root)
    → Resolves fuel m fs root names last
    → CStr mem path (path_text names)
    → AllComponents names
    → 2 ≤ fuel
    → ext2_path_lookup (length names + 1) fuel m fs mem path stale result ≡ done (pos 0, last)
unfolding ext2_path_lookup
ext2_path_lookup-Resolves fuel mem path stale result root here s c le =
    rw (root, eq→== (mem path) 0 s) refl
ext2_path_lookup-Resolves fuel mem path stale result root
      (into {names = names} name ino dir found read r) s c le =
    rw
      (
        root,
        ne→== (mem path) 0 (ground (arith, s.0)),
        lookup_loop-Resolves (length (name ∷ names) + 1) fuel mem path
            (into name ino dir found read r) s c le (omega arith),
      )
      refl
