-- ===== src/Fs/Ext2/Content.antt =====
-- `ext2_fread` of fs/ext2.c, for blocks of 1024 bytes: it reads the bytes of the file.

use loos_lab.Fs.Ext2.Tree.{block_of, get_physical_block-block_of}
use loos_lab.Base.{
  ℕ, zero, suc, ◌+◌, ◌-◌, ◌*◌, ◌/◌, ◌%◌, ◌^◌, ◌≤◌, ◌<◌, min, ◌≡◌, refl, ap, ◌∙◌, inl, inr, true,
  arith, ltb, ◌==◌, if◌then◌else◌, Bool-cases,
}
use loos_lab.Base.Run.{done}
use loos_lab.Memory.{Mem, within, filled}
use loos_lab.Fs.Ext2.{u32, i_size, Ext2Fs, Machine, read_block}
use loos_lab.Fs.Ext2.Data.{get_physical_block, copy_block, fread_loop, ext2_fread}

-- Byte `i` of a file, on the disk: it is in the block that the tree of pointers of the inode names, and 0 where the
-- block that a tree names is block 0. A pointer 0 inside a tree is followed like another, to block 0.
unfoldable pub file_byte : Machine → (inode : Mem) → ℕ → ℕ
unfolding block_of
file_byte m inode i =
    let b = block_of m inode (i / 1024) in
    if b == 0 then 0 else Machine.disk m (u32 (b * 2) * 512 + i % 1024)

-- The memory after one round that reads `n` bytes from `r` on.
abbrev chunk : Machine → (inode : Mem) → Mem → (buf r n : ℕ) → Mem
chunk m inode mem buf r n =
    let b = get_physical_block m 1024 inode (r / 1024) in
    if b == 0
    then filled mem (buf + r) 0 n
    else copy_block mem (buf + r) (read_block m b (Machine.stack m)) (r % 1024) n

same_block :
    (r n x buf : ℕ)
    → r % 1024 + n ≤ 1024
    → buf + r ≤ x
    → x < buf + r + n
    → ((x - buf) / 1024 ≡ r / 1024) × ((x - buf) % 1024 ≡ r % 1024 + (x - (buf + r)))
same_block r n x buf h lo hi = (omega arith, omega arith)

chunk_lem :
    (m : Machine) (inode mem : Mem) (buf r n x : ℕ)
    → r < 2 ^ 32
    → r % 1024 + n ≤ 1024
    → chunk m inode mem buf r n x
      ≡ (if within (buf + r) n x then file_byte m inode (x - buf) else mem x)
unfolding filled copy_block file_byte read_block
chunk_lem m inode mem buf r n x word h = elim (Bool-cases (within (buf + r) n x)) [
  | inl e ↦
      let (p, q) = same_block r n x buf h (ground arith) (ground arith) in
      let tree = get_physical_block-block_of m inode (r / 1024) (omega arith) in
      let inner : ltb (r % 1024 + (x - (buf + r))) 1024 ≡ true = ground (arith, q) in
      elim (Bool-cases (block_of m inode (r / 1024) == 0)) [
        | inl z ↦ rw (tree, e, p, q, z, e) refl
        | inr z ↦ rw (tree, e, p, q, z, e, inner) refl
      ]
  | inr e ↦ elim (Bool-cases (get_physical_block m 1024 inode (r / 1024) == 0)) [
    | inl z ↦ rw (z, e) refl
    | inr z ↦ rw (z, e) refl
  ]
]

extend :
    (buf r n count x v w u : ℕ)
    → r + n ≤ count
    → u ≡ (if within (buf + r) n x then v else w)
    → (if within (buf + (r + n)) (count - (r + n)) x then v else u)
      ≡ (if within (buf + r) (count - r) x then v else w)
extend buf r n count x v w u le h = ground arith

fread_loop_lem :
    (f : ℕ) (m : Machine) (inode mem : Mem) (buf count r : ℕ)
    → count < 2 ^ 32
    → r ≤ count
    → count < f + r
    → (mem' : Mem) × (fread_loop f m 1024 inode mem buf count r ≡ done (count, mem'))
      × ((x : ℕ)
          → mem' x
            ≡ (if within (buf + r) (count - r) x then file_byte m inode (x - buf) else mem x))
unfolding fread_loop
fread_loop_lem zero m inode mem buf count r c le h = absurd (omega arith)
fread_loop_lem (suc f) m inode mem buf count r c le h = elim (Bool-cases (ltb r count)) [
  | inl e ↦
      let n = min (1024 - r % 1024) (count - r) in
      let mem₁ = chunk m inode mem buf r n in
      let wrap : u32 (r + n) ≡ r + n = ground arith in
      let (mem', eq, same) =
        fread_loop_lem f m inode mem₁ buf count (r + n) c (ground arith) (ground arith) in
      (
        mem',
        rw (e, wrap) eq,
        λ x.
            same x
            ∙ extend buf r n count x (file_byte m inode (x - buf)) (mem x) (mem₁ x) (omega arith)
                (chunk_lem m inode mem buf r n x (ground arith) (omega arith)),
      )
  | inr e ↦ (mem, rw e (ap (λ k. done (k, mem)) (ground arith)), λ x. ground arith)
]

-- With blocks of 1024 bytes, `ext2_fread` of up to `count` bytes ends within `count + 1` rounds, answers the lesser
-- of `count` and the size of the file, puts the bytes of the file from its start at `buf`, with zeros for the blocks
-- that the tree of the inode gives the number 0, and writes nowhere else.
pub ext2_fread-file_byte :
    (m : Machine) (fs : Ext2Fs) (inode mem : Mem) (buf count : ℕ)
    → Ext2Fs.block_size fs ≡ 1024
    → count < 2 ^ 32
    → (mem' : Mem) × (ext2_fread (count + 1) m fs inode mem buf count
        ≡ done (min count (i_size inode), mem'))
      × ((x : ℕ)
          → mem' x ≡ (
              if within buf (min count (i_size inode)) x
              then file_byte m inode (x - buf)
              else mem x))
unfolding ext2_fread
ext2_fread-file_byte m fs inode mem buf count bs h =
    let n = min count (i_size inode) in
    let (mem', eq, same) =
      fread_loop_lem (count + 1) m inode mem buf n 0 (omega arith) (omega arith) (omega arith) in
    (mem', rw bs eq, λ x. same x ∙ from_start x n (file_byte m inode (x - buf)) (mem x))
  where
    from_start :
        (x n v w : ℕ)
        → (if within (buf + 0) (n - 0) x then v else w) ≡ (if within buf n x then v else w)
    from_start x n v w = ground arith
