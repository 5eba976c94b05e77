-- ===== src/Fs/Ext2/Dir.antt =====
-- fs/ext2.c: directories and paths. A name in a local buffer is the list of its bytes.

use loos_lab.Base.{
  ℕ, zero, suc, ◌+◌, ◌/◌, ◌%◌, Bool, true, false, not, ◌&&◌, ◌||◌, Option, none, some, List, [],
  ◌∷◌, ◌++◌, ltb, ◌==◌, if◌then◌else◌, length,
}
use loos_lab.Base.Run.{Run, ◌>>=◌, done, halted, out_of_fuel}
use loos_lab.Base.Int.{ℤ, pos, negsuc}
use loos_lab.Memory.{Mem}
use loos_lab.Fs.Ext2.{
  u32, get16, get32, offset_of, size_of, dir_entry_layout, i_mode, i_block, Ext2Fs, Machine,
  new_page, too_big, read_block, ext2_read_superblock, ext2_read_group_desc, ext2_get_inode,
}

-- Fields of the directory entry at `de` of the buffer `buf`.
abbrev pub de_inode : Mem → ℕ → ℕ
de_inode buf de = get32 buf (de + offset_of dir_entry_layout 0)

abbrev pub rec_len : Mem → ℕ → ℕ
rec_len buf de = get16 buf (de + offset_of dir_entry_layout 1)

abbrev pub name_len : Mem → ℕ → ℕ
name_len buf de = buf (de + offset_of dir_entry_layout 2)

-- The `n` bytes from `a` on.
abbrev pub bytes_at : Mem → (a n : ℕ) → List ℕ
bytes_at buf a zero = []
bytes_at buf a (suc n) = buf a ∷ bytes_at buf (a + 1) n

abbrev pub de_name : Mem → ℕ → List ℕ
de_name buf de = bytes_at buf (de + size_of dir_entry_layout) (name_len buf de)

-- `strcmp(a, b) == 0` of two buffers that end in a terminator behind these bytes.
abbrev pub same_string : List ℕ → List ℕ → Bool
same_string [] [] = true
same_string [] (y ∷ ys) = y == 0
same_string (x ∷ xs) [] = x == 0
same_string (x ∷ xs) (y ∷ ys) = x == y && (x == 0 || same_string xs ys)

abbrev pub is_zero : ℤ → Bool
is_zero (pos n) = n == 0
is_zero (negsuc n) = false

-- The entries of one block that `ext2_read_dir` logs, each with its inode number. The entries advance, so
-- `block_size` rounds and the last test are enough.
unfoldable pub log_entries : (fuel : ℕ) → Mem → (entry block_size : ℕ) → Run (List (List ℕ × ℕ))
log_entries zero buf entry block_size = out_of_fuel
log_entries (suc f) buf entry block_size =
    let rest = log_entries f buf (entry + rec_len buf entry) block_size in
    let found : List ℕ × ℕ = (de_name buf entry, de_inode buf entry) in
    if ltb entry block_size
    then (if rec_len buf entry == 0
        then done (found ∷ [])
        else (do more ← rest; done (found ∷ more)))
    else done []

-- The loop of `ext2_read_dir` over the direct blocks, `n` of which are left from `i` on.
unfoldable pub read_dir_loop :
    (n fuel : ℕ)
    → Machine
    → Ext2Fs
    → (dir_inode : Mem) → (i : ℕ) → (block : Mem) → Run (List (List ℕ × ℕ))
unfolding log_entries read_block
read_dir_loop zero fuel m fs dir_inode i block = done []
read_dir_loop (suc n) fuel m fs dir_inode i block =
    let block' = read_block m (i_block dir_inode i) block in
    let rest = read_dir_loop n fuel m fs dir_inode (i + 1) block' in
    if i_block dir_inode i == 0 then done [] else (do
      found ← log_entries fuel block' 0 (Ext2Fs.block_size fs)
      more ← rest
      done (found ++ more))

unfoldable pub ext2_read_dir :
    (fuel : ℕ) → Machine → Ext2Fs → (dir_inode : Mem) → Run (List (List ℕ × ℕ))
unfolding read_dir_loop
ext2_read_dir fuel m fs dir_inode =
    if too_big (Ext2Fs.block_size fs)
    then halted
    else read_dir_loop 12 fuel m fs dir_inode 0 new_page

-- `ext2_init` behind its first test. `root` is what the variable `root_inode` holds before; the code that
-- `ext2_get_inode` answers is not looked at.
unfoldable pub ext2_init_rest :
    (fuel : ℕ) → Machine → Ext2Fs → (root : Mem) → Run (ℤ × Ext2Fs × List (List ℕ × ℕ))
unfolding ext2_read_group_desc ext2_get_inode ext2_read_dir
ext2_init_rest fuel m fs root = do
  let fs' = ext2_read_group_desc m fs
  (ret, root_inode) ← ext2_get_inode m fs' 2 root
  logged ← ext2_read_dir fuel m fs' root_inode
  done (pos 0, fs', logged)

-- `ext2_init`: the code, the file system, and what was logged.
unfoldable pub ext2_init :
    (fuel : ℕ)
    → Machine
    → Ext2Fs
    → (partition_start : ℕ) → (root : Mem) → Run (ℤ × Ext2Fs × List (List ℕ × ℕ))
unfolding ext2_read_superblock ext2_init_rest
ext2_init fuel m fs partition_start root =
    let (ret, fs₁) = ext2_read_superblock m fs (u32 (partition_start + 1)) in
    let rest = ext2_init_rest fuel m fs₁ root in
    if is_zero ret then rest else done (negsuc 0, fs₁, [])

-- `while (*p == '/') p++;`
unfoldable pub skip_slashes : (fuel : ℕ) → Mem → (p : ℕ) → Run ℕ
skip_slashes zero m p = out_of_fuel
skip_slashes (suc f) m p =
    let rest = skip_slashes f m (p + 1) in if m p == b'/' then rest else done p

-- The characters of a component, of at most `room` more, and the last `p`.
unfoldable pub component_loop : (room : ℕ) → Mem → (p : ℕ) → List ℕ × ℕ
component_loop zero m p = ([], p)
component_loop (suc room) m p =
    let (name, p') = component_loop room m (p + 1) in
    if m p == 0 || m p == b'/' then ([], p) else (m p ∷ name, p')

-- `parse_path_component`: `name`, whose length is the answer, and `*path`.
unfoldable pub parse_path_component : (fuel : ℕ) → Mem → (path : ℕ) → Run (List ℕ × ℕ)
unfolding skip_slashes component_loop
parse_path_component fuel m path = do p ← skip_slashes fuel m path; done (component_loop 255 m p)

-- The loop of `find_dir_entry` over the entries of one block: the inode number, or `none` at the end. An entry
-- of length 0 is looked at for ever.
unfoldable pub scan_block :
    (fuel : ℕ) → Mem → (de block_size : ℕ) → (name : List ℕ) → Run (Option ℕ)
scan_block zero buf de block_size name = out_of_fuel
scan_block (suc f) buf de block_size name =
    let rest = scan_block f buf (de + rec_len buf de) block_size name in
    if ltb de block_size
    then (if de_inode buf de == 0 || name_len buf de == 0
        then rest
        else if same_string (de_name buf de) name
        then done (some (de_inode buf de))
        else rest)
    else done none

-- The loop over the direct blocks, `n` of which are left from `i` on.
unfoldable pub search_blocks :
    (n fuel : ℕ)
    → Machine
    → Ext2Fs
    → (dir : Mem) → (i : ℕ) → (block_buf : Mem) → (name : List ℕ) → Run (Option ℕ)
unfolding scan_block read_block
search_blocks zero fuel m fs dir i block_buf name = done none
search_blocks (suc n) fuel m fs dir i block_buf name =
    let block_buf' = read_block m (i_block dir i) block_buf in
    let rest = search_blocks n fuel m fs dir (i + 1) block_buf' name in
    if i_block dir i == 0 then done none else (do
      found ← scan_block fuel block_buf' 0 (Ext2Fs.block_size fs) name
      elim found [ none ↦ rest | some ino ↦ done (some ino) ])

-- `find_dir_entry`: the inode number, or `none` for the answer -1.
unfoldable pub find_dir_entry :
    (fuel : ℕ) → Machine → Ext2Fs → (dir : Mem) → (name : List ℕ) → Run (Option ℕ)
unfolding search_blocks
find_dir_entry fuel m fs dir name = search_blocks 12 fuel m fs dir 0 (Machine.stack m) name

-- The mode bit `EXT2_S_IFDIR`
abbrev pub is_dir : Mem → Bool
is_dir inode = i_mode inode / 0x4000 % 2 == 1

-- The loop of `ext2_path_lookup`, over the rounds left: the code, and the last inode.
unfoldable pub lookup_loop :
    (rounds fuel : ℕ) → Machine → Ext2Fs → Mem → (p : ℕ) → (current_inode : Mem) → Run (ℤ × Mem)
unfolding parse_path_component find_dir_entry ext2_get_inode
lookup_loop zero fuel m fs mem p current_inode = out_of_fuel
lookup_loop (suc n) fuel m fs mem p current_inode =
    let again : ℕ → Mem → Run (ℤ × Mem) = λ p' inode. lookup_loop n fuel m fs mem p' inode in
    if mem p == 0 then done (pos 0, current_inode) else do
      (component, p') ← parse_path_component fuel mem p
      if length component == 0
          then again p' current_inode
          else if not (is_dir current_inode)
          then done (negsuc 19, current_inode)
          else do
            found ← find_dir_entry fuel m fs current_inode component
            elim found [
              | none ↦ done (negsuc 0, current_inode)
              | some next_ino ↦ do
                (ret, inode) ← ext2_get_inode m fs next_ino current_inode
                if is_zero ret then again p' inode else done (ret, inode)
            ]

-- `ext2_path_lookup`: the code, and `*result`. `stale` is what the local inode holds before.
unfoldable pub ext2_path_lookup :
    (rounds fuel : ℕ) → Machine → Ext2Fs → Mem → (path : ℕ) → (stale result : Mem) → Run (ℤ × Mem)
unfolding lookup_loop ext2_get_inode
ext2_path_lookup rounds fuel m fs mem path stale result = do
  (ret, root) ← ext2_get_inode m fs 2 stale
  if not (is_zero ret) then done (ret, result) else if mem path == 0 then done (pos 0, root) else do
    (ret', inode) ← lookup_loop rounds fuel m fs mem path root
    done (ret', if is_zero ret' then inode else result)
