-- ===== src/Fs/Files/Open.antt =====
-- `open` after the path was found.

use loos_lab.Base.Int.{pos, negsuc}
use loos_lab.Base.Run.{done, halted}
use loos_lab.Base.{
  ℕ, ◌%◌, ◌^◌, ◌<◌, ◌≡◌, refl, ◌∙◌, ◌≢◌, ◌⊎◌, inl, inr, some, List, ◌∷◌, arith, set-set,
}
use loos_lab.Mm.Memblock.{Kmem, kmalloc}
use loos_lab.Mm.Memblock.Laws.{IsKmem, kalloc_page_memblock-IsKmem}
use loos_lab.Libc.Block.{memcpy}
use loos_lab.Fs.Files.{
  File, Fd, Files, no_file, no_fd, file, desc, set_file, set_desc, is_free_file, is_free_fd,
  alloc_fds, inode_size, open_found,
}
use loos_lab.Fs.Files.Count.{first_from_lem}
use loos_lab.Fs.Files.Valid.{
  IsFiles, desc-set_desc, set_desc-IsFiles, file-set_file, set_file-IsFiles,
}

-- The state after a file was opened: the lowest free descriptor names the lowest free file, which is in
-- use from then on, at position 0, its inode in a page of its own; its count is what it was.
pub record Opened (t t' : Files) (flags fd i page : ℕ) : Type 0 where
  pub was_free : (fd < 256) × ((desc t fd).busy ≡ 0)
  pub lowest : (j : ℕ) → j < fd → (desc t j).busy ≢ 0
  pub file_free : (i < 256) × ((file t i).alloc ≡ 0)
  pub lowest_file : (j : ℕ) → j < i → (file t j).alloc ≢ 0
  pub named : desc t' fd ≡ record { fds_index = i; busy = 1 }
  pub others : (j : ℕ) → j ≢ fd → desc t' j ≡ desc t j
  pub opened : file t' i ≡ record {
    f_inode = page;
    f_pos = 0;
    f_flags = flags % 2 ^ 32;
    refcount = (file t i).refcount;
    alloc = 1;
  }
  pub other_files : (j : ℕ) → j ≢ i → file t' j ≡ file t j
  pub valid : IsFiles t'

opened_lem :
    (t : Files)
    → IsFiles t
    → (k : Kmem) (flags fd i page : ℕ) → fd < 256
    → (desc t fd).busy ≡ 0
    → ((j : ℕ) → j < fd → (desc t j).busy ≢ 0)
    → i < 256
    → (file t i).alloc ≡ 0
    → ((j : ℕ) → j < i → (file t j).alloc ≢ 0)
    → (f : File)
    → f ≡ record {
      f_inode = page;
      f_pos = 0;
      f_flags = flags % 2 ^ 32;
      refcount = (file t i).refcount;
      alloc = 1;
    }
    → Opened t
        (set_file (record (set_desc t fd (record { fds_index = i; busy = 1 })) { kmem = k }) i f)
        flags
        fd
        i
        page
opened_lem t is k flags fd i page h b low hi fr lowf f eq =
    let d : Fd = record { fds_index = i; busy = 1 } in
    let s = set_desc-IsFiles is fd d h (λ _. hi) in
    let is₁ : IsFiles (record (set_desc t fd d) { kmem = k }) = record {
      files = s.files;
      descs = s.descs;
      index = s.index;
      word = s.word;
    } in
    record {
      was_free = (h, b);
      lowest = low;
      file_free = (hi, fr);
      lowest_file = lowf;
      named = desc-set_desc is fd fd d h ∙ ground arith;
      others = λ j ne. ground (arith, desc-set_desc is fd j d h);
      opened = ground (arith, file-set_file is₁ i i f hi, eq);
      other_files = λ j ne. ground (arith, file-set_file is₁ i j f hi);
      valid = set_file-IsFiles is₁ i f hi (ground (arith, eq, is.word i));
    }

-- `open` of a path that was found, with a free page for its inode: the table of descriptors is full and
-- the answer is -1, or the table of files is full and the kernel halts, or the answer is the lowest free
-- descriptor and the tables are as `Opened` says.
pub open_found-Opened :
    (t : Files)
    → IsFiles t
    → (page : ℕ) (pages : List ℕ) → IsKmem t.kmem (page ∷ pages)
    → (inode flags : ℕ)
    → ((open_found t (some inode) flags ≡ done (negsuc 0, t))
        × ((j : ℕ) → j < 256 → (desc t j).busy ≢ 0))
      ⊎ ((open_found t (some inode) flags ≡ halted) × ((j : ℕ) → j < 256 → (file t j).alloc ≢ 0))
      ⊎ ((fd : ℕ) × (i : ℕ) × (t' : Files) × (open_found t (some inode) flags ≡ done (pos fd, t'))
          × Opened t t' flags fd i page)
unfolding open_found alloc_fds kmalloc
open_found-Opened t is page pages ism inode flags =
    elim (first_from_lem is_free_fd 0 t.fdtable no_fd) [
      | inl (eq, all) ↦ inl (ground (arith, eq), λ j h. ground (arith, all j, is.descs))
      | inr (fd, eq, lt, free, low) ↦ elim (first_from_lem is_free_file 0 t.fds no_file) [
        | inl (eq', all) ↦
            inr (inl (ground (arith, eq, eq'), λ j h. ground (arith, all j, is.files)))
        | inr (i, eq', lt', free', low') ↦
            let (k, eqk, _, _, _, _) = kalloc_page_memblock-IsKmem t.kmem page pages ism in
            let d : Fd = record { fds_index = i; busy = 1 } in
            let twice = set-set t.fdtable fd (record (desc t fd) { busy = 1 }) d in
            let hi : i < 256 = omega (arith, is.files) in
            let hfd : fd < 256 = omega (arith, is.descs) in
            let f₁ : File = record (file t i) { alloc = 1 } in
            let f₂ : File = record f₁ { f_inode = page; f_pos = 0; f_flags = flags % 2 ^ 32 } in
            let k' : Kmem = record k { mem = (memcpy k.mem page inode inode_size).0 } in
            let here : file (set_file t i f₁) i ≡ f₁ = file-set_file is i i f₁ hi ∙ ground arith in
            inr (
              inr (
                fd,
                i,
                set_file (record (set_desc t fd (record { fds_index = i; busy = 1 })) { kmem = k' })
                    i f₂,
                ground (arith, eq, eq', eqk, here, set-set t.fds i f₁ f₂, twice),
                opened_lem t is k' flags fd i page hfd (ground arith) (λ j h. ground (arith, low j))
                    hi (ground arith) (λ j h. ground (arith, low' j)) f₂ refl,
              ))
      ]
    ]
