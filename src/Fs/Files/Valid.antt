-- ===== src/Fs/Files/Valid.antt =====
-- Well-formed file tables, and reading back what a store to one of the tables left.

use loos_lab.Base.Int.{pos}
use loos_lab.Base.{
  ℕ, ◌+◌, ◌^◌, ◌<◌, ◌≡◌, ◌∙◌, ◌≢◌, inl, inr, false, arith, ◌==◌, if◌then◌else◌, Bool-cases, length,
  length-set, get_or-set,
}
use loos_lab.Fs.Files.{File, Fd, Files, no_file, no_fd, file, desc, set_file, set_desc, fd_invalid}
use loos_lab.Fs.Files.Count.{indicator, refers, refs, count-set}

-- Both tables have their size, an open descriptor names a file of the table, and the counts are words.
pub record IsFiles (t : Files) : Type 0 where
  pub files : length t.fds ≡ 256
  pub descs : length t.fdtable ≡ 256
  pub index : (fd : ℕ) → (desc t fd).busy ≢ 0 → (desc t fd).fds_index < 256
  pub word : (i : ℕ) → (file t i).refcount < 2 ^ 32

module _ {t : Files} (is : IsFiles t) where
  -- A store to a descriptor.
  pub desc-set_desc :
      (fd j : ℕ) (d : Fd) → fd < 256 → desc (set_desc t fd d) j ≡ (if j == fd then d else desc t j)
  desc-set_desc fd j d h = get_or-set t.fdtable fd j d no_fd (omega (arith, is.descs))

  pub set_desc-IsFiles :
      (fd : ℕ) (d : Fd) → fd < 256 → (d.busy ≢ 0 → d.fds_index < 256) → IsFiles (set_desc t fd d)
  set_desc-IsFiles fd d h ok = record {
    files = is.files;
    descs = length-set t.fdtable fd d ∙ is.descs;
    index = λ j. elim (Bool-cases (j == fd)) [
      | inl same ↦ ground (arith, desc-set_desc fd j d h)
      | inr differ ↦ ground (arith, desc-set_desc fd j d h, is.index j)
    ];
    word = is.word;
  }

  pub refs-set_desc :
      (fd i : ℕ) (d : Fd)
      → fd < 256
      → refs (set_desc t fd d) i + indicator (refers i (desc t fd))
        ≡ refs t i + indicator (refers i d)
  refs-set_desc fd i d h = count-set (refers i) t.fdtable fd d no_fd (omega (arith, is.descs))

  -- A store to a file.
  pub file-set_file :
      (i j : ℕ) (f : File) → i < 256 → file (set_file t i f) j ≡ (if j == i then f else file t j)
  file-set_file i j f h = get_or-set t.fds i j f no_file (omega (arith, is.files))

  pub set_file-IsFiles :
      (i : ℕ) (f : File) → i < 256 → f.refcount < 2 ^ 32 → IsFiles (set_file t i f)
  set_file-IsFiles i f h small = record {
    files = length-set t.fds i f ∙ is.files;
    descs = is.descs;
    index = is.index;
    word = λ j. ground (arith, file-set_file i j f h, is.word j);
  }

  -- A valid descriptor is an open entry of the table.
  pub fd_invalid-desc :
      (fd : ℕ) → fd_invalid t (pos fd) ≡ false → (fd < 256) × ((desc t fd).busy ≢ 0)
  unfolding fd_invalid
  fd_invalid-desc fd h = (ground arith, ground arith)
