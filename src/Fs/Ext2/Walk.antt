-- ===== src/Fs/Ext2/Walk.antt =====
-- `ext2_read_dir` and `find_dir_entry` of fs/ext2.c over the direct blocks of a directory.

use loos_lab.Base.{
  ℕ, zero, suc, ◌+◌, ◌<◌, ◌≡◌, refl, ◌≢◌, inl, inr, false, ◌||◌, Option, none, some, List, [], ◌∷◌,
  ◌++◌, arith, ◌==◌, eq→==, ne→==, Bool-cases, length,
}
use loos_lab.Base.Run.{Run, done}
use loos_lab.Memory.{Mem}
use loos_lab.Fs.Ext2.{i_block, Ext2Fs, Machine, new_page, too_big, read_block}
use loos_lab.Fs.Ext2.Dir.{same_string, read_dir_loop, ext2_read_dir, search_blocks, find_dir_entry}
use loos_lab.Fs.Ext2.Search.{Entries, lookup, scan_block-lookup, log_entries-Entries}

-- From direct block `i` on, `n` blocks being left, the directory holds these entries. `old` is what the buffer
-- holds before.
pub data Listing (m : Machine) (fs : Ext2Fs) (dir : Mem)
    : ℕ → ℕ → Mem → List (List ℕ × ℕ) → Type 0 where
  twelve : {i : ℕ} {old : Mem} → Listing m fs dir zero i old []
  no_block : {n i : ℕ} {old : Mem} → i_block dir i ≡ 0 → Listing m fs dir (suc n) i old []
  block :
      {n i : ℕ} {old : Mem} (es rest : List (List ℕ × ℕ))
      → i_block dir i ≢ 0
      → Entries (read_block m (i_block dir i) old) (Ext2Fs.block_size fs) 0 es
      → Listing m fs dir n (i + 1) (read_block m (i_block dir i) old) rest
      → Listing m fs dir (suc n) i old (es ++ rest)

or_else : Option ℕ → Option ℕ → Option ℕ
or_else none o = o
or_else (some a) o = some a

lookup-append :
    (name : List ℕ) (es rest : List (List ℕ × ℕ))
    → lookup name (es ++ rest) ≡ or_else (lookup name es) (lookup name rest)
unfolding or_else
lookup-append name [] rest = refl
lookup-append name ((found, ino) ∷ es) rest = elim (Bool-cases (ino == 0 || length found == 0)) [
  | inl a ↦ rw a (lookup-append name es rest)
  | inr a ↦ elim (Bool-cases (same_string found name)) [
    | inl b ↦ rw (a, b) refl
    | inr b ↦ rw (a, b) (lookup-append name es rest)
  ]
]

merge :
    (o : Option ℕ) (r : Run (Option ℕ)) (rest : Option ℕ)
    → r ≡ done rest
    → (elim o [ none ↦ r | some ino ↦ done (some ino) ]) ≡ done (or_else o rest)
unfolding or_else
merge none r rest e = e
merge (some a) r rest e = refl

search_blocks-lookup :
    {m : Machine} {fs : Ext2Fs} {dir : Mem} {n i : ℕ} {old : Mem} {es : List (List ℕ × ℕ)}
    (fuel : ℕ) (name : List ℕ)
    → Listing m fs dir n i old es
    → Ext2Fs.block_size fs < fuel
    → search_blocks n fuel m fs dir i old name ≡ done (lookup name es)
unfolding search_blocks
search_blocks-lookup fuel name twelve lt = refl
search_blocks-lookup {dir = dir} {i = i} fuel name (no_block z) lt =
    rw (eq→== (i_block dir i) 0 z) refl
search_blocks-lookup {m = m} {fs = fs} {dir = dir} {n = n} {i = i} {old = old} fuel name
      (block es rest z e l) lt =
    rw
      (
        ne→== (i_block dir i) 0 z,
        scan_block-lookup fuel name e (omega arith),
        lookup-append name es rest,
      )
      (merge (lookup name es) _ (lookup name rest) (search_blocks-lookup fuel name l lt))

read_dir_loop-Listing :
    {m : Machine} {fs : Ext2Fs} {dir : Mem} {n i : ℕ} {old : Mem} {es : List (List ℕ × ℕ)}
    (fuel : ℕ)
    → Listing m fs dir n i old es
    → Ext2Fs.block_size fs < fuel
    → read_dir_loop n fuel m fs dir i old ≡ done es
unfolding read_dir_loop
read_dir_loop-Listing fuel twelve lt = refl
read_dir_loop-Listing {dir = dir} {i = i} fuel (no_block z) lt = rw (eq→== (i_block dir i) 0 z) refl
read_dir_loop-Listing {m = m} {fs = fs} {dir = dir} {n = n} {i = i} {old = old} fuel
      (block es rest z e l) lt =
    rw
      (
        ne→== (i_block dir i) 0 z,
        log_entries-Entries fuel e (omega arith),
        read_dir_loop-Listing fuel l lt,
      )
      refl

-- `ext2_read_dir` logs exactly the entries of the directory's direct blocks, and `find_dir_entry` answers the first
-- of those in use that has the name, both within `block_size + 1` rounds for a block, if no entry has length 0 and
-- what a buffer holds behind the block is no part of an entry.
pub find_dir_entry-ext2_read_dir :
    {m : Machine} {fs : Ext2Fs} {dir : Mem} {es : List (List ℕ × ℕ)} (name : List ℕ)
    → too_big (Ext2Fs.block_size fs) ≡ false
    → Listing m fs dir 12 0 new_page es
    → Listing m fs dir 12 0 (Machine.stack m) es
    → (ext2_read_dir (Ext2Fs.block_size fs + 1) m fs dir ≡ done es)
      × (find_dir_entry (Ext2Fs.block_size fs + 1) m fs dir name ≡ done (lookup name es))
unfolding ext2_read_dir find_dir_entry
find_dir_entry-ext2_read_dir {fs = fs} name small heap stack = (
  rw small (read_dir_loop-Listing (Ext2Fs.block_size fs + 1) heap (omega arith)),
  search_blocks-lookup (Ext2Fs.block_size fs + 1) name stack (omega arith),
)
