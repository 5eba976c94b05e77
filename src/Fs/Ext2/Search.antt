-- ===== src/Fs/Ext2/Search.antt =====
-- The directory loops of fs/ext2.c on one block, against the list of its entries.

use loos_lab.Base.{
  ℕ, zero, suc, ◌+◌, ◌-◌, ◌≤◌, ◌<◌, ◌≡◌, refl, ap, ◌≢◌, ◌⊎◌, Bool, true, false, ◌||◌, Option, none,
  some, List, [], ◌∷◌, arith, ◌==◌, if◌then◌else◌, lt→ltb, le→ltb, ne→==, length,
}
use loos_lab.Base.Run.{done, out_of_fuel}
use loos_lab.Memory.{Mem}
use loos_lab.Fs.Ext2.Dir.{
  de_inode, rec_len, name_len, bytes_at, de_name, same_string, log_entries, scan_block,
}

-- From `de` on, the block in `buf` of `block_size` bytes holds these entries, name and inode number, none of
-- length 0.
pub data Entries (buf : Mem) (block_size : ℕ) : ℕ → List (List ℕ × ℕ) → Type 0 where
  over : {de : ℕ} → block_size ≤ de → Entries buf block_size de []
  next :
      {de : ℕ} {es : List (List ℕ × ℕ)}
      → de < block_size
      → rec_len buf de ≢ 0
      → Entries buf block_size (de + rec_len buf de) es
      → Entries buf block_size de ((de_name buf de, de_inode buf de) ∷ es)

-- The inode number of the first entry in use of that name.
abbrev pub lookup : List ℕ → List (List ℕ × ℕ) → Option ℕ
lookup name [] = none
lookup name ((found, ino) ∷ es) =
    if ino == 0 || length found == 0
    then lookup name es
    else if same_string found name
    then some ino
    else lookup name es

abbrev tail : List (List ℕ × ℕ) → List (List ℕ × ℕ)
tail [] = []
tail (x ∷ xs) = xs

length-bytes_at : (buf : Mem) (a n : ℕ) → length (bytes_at buf a n) ≡ n
length-bytes_at buf a zero = refl
length-bytes_at buf a (suc n) = ap suc (length-bytes_at buf (a + 1) n)

-- The bytes left bound the rounds.
pub scan_block-lookup :
    {buf : Mem} {block_size : ℕ} (fuel : ℕ) {de : ℕ} {es : List (List ℕ × ℕ)} (name : List ℕ)
    → Entries buf block_size de es
    → block_size - de < fuel
    → scan_block fuel buf de block_size name ≡ done (lookup name es)
unfolding scan_block
scan_block-lookup zero name e lt = absurd (omega arith)
scan_block-lookup {block_size = bs} (suc f) {de = de} name (over h) lt = rw (le→ltb de bs h) refl
scan_block-lookup {buf = buf} {block_size = bs} (suc f) {de = de} {es = es} name (next h r e) lt =
    rw
      (
        lt→ltb de bs h,
        length-bytes_at buf (de + 8) (name_len buf de),
        scan_block-lookup f name e (omega arith),
      )
      (branches (de_inode buf de == 0 || name_len buf de == 0) (same_string (de_name buf de) name)
        (de_inode buf de) (lookup name (tail es)))
  where
    branches :
        (a b : Bool) (ino : ℕ) (rest : Option ℕ)
        → (if a then done rest else if b then done (some ino) else done rest)
          ≡ done (if a then rest else if b then some ino else rest)
    branches true b ino rest = refl
    branches false true ino rest = refl
    branches false false ino rest = refl

pub log_entries-Entries :
    {buf : Mem} {block_size : ℕ} (fuel : ℕ) {de : ℕ} {es : List (List ℕ × ℕ)}
    → Entries buf block_size de es
    → block_size - de < fuel
    → log_entries fuel buf de block_size ≡ done es
unfolding log_entries
log_entries-Entries zero e lt = absurd (omega arith)
log_entries-Entries {block_size = bs} (suc f) {de = de} (over h) lt = rw (le→ltb de bs h) refl
log_entries-Entries {buf = buf} {block_size = bs} (suc f) {de = de} (next h r e) lt =
    rw (lt→ltb de bs h, ne→== (rec_len buf de) 0 r, log_entries-Entries f e (omega arith)) refl

-- An entry of length 0 that is not the one looked for is looked at for ever.
pub scan_block_stuck :
    (fuel : ℕ) (buf : Mem) (de block_size : ℕ) (name : List ℕ)
    → de < block_size
    → rec_len buf de ≡ 0
    → (de_inode buf de ≡ 0) ⊎ ((name_len buf de ≡ 0) ⊎ (same_string (de_name buf de) name ≡ false))
    → scan_block fuel buf de block_size name ≡ out_of_fuel
unfolding scan_block
scan_block_stuck zero buf de bs name h r other = refl
scan_block_stuck (suc f) buf de bs name h r other =
    let stay : de + rec_len buf de ≡ de = omega (arith, r) in
    rw (lt→ltb de bs h, stay, scan_block_stuck f buf de bs name h r other)
      (branches (de_inode buf de == 0 || name_len buf de == 0) (same_string (de_name buf de) name)
        (ground (arith, other)))
  where
    branches :
        (a b : Bool)
        → (a ≡ true) ⊎ (b ≡ false)
        → (if a then out_of_fuel else if b then done (some (de_inode buf de)) else out_of_fuel)
          ≡ out_of_fuel
    branches true b o = refl
    branches false false o = refl
    branches false true o = ground (arith, o)
