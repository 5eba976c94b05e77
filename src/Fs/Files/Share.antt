-- ===== src/Fs/Files/Share.antt =====
-- `dup` and `close`: the count of a file and the descriptors that share it.

use loos_lab.Base.Int.{ℤ, pos, negsuc}
use loos_lab.Base.Run.{done}
use loos_lab.Base.{
  ℕ, ◌+◌, ◌-◌, ◌%◌, ◌^◌, ◌<◌, ◌≡◌, refl, ap, ◌∙◌, ◌≢◌, ◌⊎◌, inl, inr, true, false, not, ◌&&◌, arith,
  ◌==◌, if◌then◌else◌, Bool-cases, set-set,
}
use loos_lab.Fs.Files.{
  File, Fd, Files, no_fd, file, desc, set_file, set_desc, fd_to_fds, is_free_fd, free_fds,
  fd_invalid, more_refs, closed, is_pipe, close, dup,
}
use loos_lab.Fs.Files.Count.{count, refs, first_from_lem}
use loos_lab.Fs.Files.Valid.{
  IsFiles, desc-set_desc, set_desc-IsFiles, refs-set_desc, file-set_file, set_file-IsFiles,
  fd_invalid-desc,
}

-- From `t` to `t'` the count of every file changes by as much as the descriptors that refer to it.
abbrev pub Balanced : Files → Files → Type 0
Balanced t t' =
    (i : ℕ)
    → i < 256
    → ((file t' i).refcount + refs t i) % 2 ^ 32 ≡ ((file t i).refcount + refs t' i) % 2 ^ 32

-- `n` is free in `t`, and in `t'` shares the file of `old`; nothing else changes but the count of that
-- file.
pub record Dupped (t t' : Files) (old n : ℕ) : Type 0 where
  pub was_free : (n < 256) × ((desc t n).busy ≡ 0)
  pub shared : desc t' n ≡ record { fds_index = (desc t old).fds_index; busy = 1 }
  pub others : (j : ℕ) → j ≢ n → desc t' j ≡ desc t j
  pub fields :
      (i : ℕ)
      → ((file t' i).f_inode ≡ (file t i).f_inode)
        × ((file t' i).f_pos ≡ (file t i).f_pos)
        × ((file t' i).f_flags ≡ (file t i).f_flags)
        × ((file t' i).alloc ≡ (file t i).alloc)
  pub counted :
      (file t' (desc t old).fds_index).refcount
      ≡ ((file t (desc t old).fds_index).refcount + 1) % 2 ^ 32
  pub balanced : Balanced t t'
  pub valid : IsFiles t'

-- Sharing the file of an open descriptor.
pub share_lem :
    (t : Files)
    → IsFiles t
    → (old n : ℕ) → old < 256
    → (desc t old).busy ≢ 0
    → n < 256
    → (desc t n).busy ≡ 0
    → Dupped t
        (more_refs
          (set_desc t n (record { fds_index = (desc t old).fds_index; busy = 1 }))
          (desc t old).fds_index)
        old
        n
share_lem t is old n ho bo hn bn =
    let i = (desc t old).fds_index in
    let d : Fd = record { fds_index = i; busy = 1 } in
    let t₁ = set_desc t n d in
    let hi = is.index old bo in
    let is₁ = set_desc-IsFiles is n d hn (λ _. hi) in
    let f : File = record (file t₁ i) { refcount = ((file t₁ i).refcount + 1) % 2 ^ 32 } in
    record {
      was_free = (hn, bn);
      shared = desc-set_desc is n n d hn ∙ ground arith;
      others = λ j ne. ground (arith, desc-set_desc is n j d hn);
      fields = λ j. ground (arith, file-set_file is₁ i j f hi);
      counted = ap (λ (x : File). x.refcount) (file-set_file is₁ i i f hi) ∙ ground arith;
      balanced = λ j hj. ground (arith, file-set_file is₁ i j f hi, refs-set_desc is n j d hn);
      valid = set_file-IsFiles is₁ i f hi (omega arith);
    }

-- `dup` of an open descriptor answers the lowest free one, which shares the file from then on and is
-- counted; where the table is full the answer is -1 and nothing changes.
pub dup-Dupped :
    (t : Files)
    → IsFiles t
    → (old : ℕ) → fd_invalid t (pos old) ≡ false
    → ((dup t (pos old) ≡ done (negsuc 0, t)) × ((j : ℕ) → j < 256 → (desc t j).busy ≢ 0))
      ⊎ ((n : ℕ) × (t' : Files) × (dup t (pos old) ≡ done (pos n, t'))
          × Dupped t t' old n
          × ((j : ℕ) → j < n → (desc t j).busy ≢ 0))
unfolding dup fd_to_fds
dup-Dupped t is old ok =
    let (ho, bo) = fd_invalid-desc is old ok in
    elim (first_from_lem is_free_fd 0 t.fdtable no_fd) [
      | inl (eq, all) ↦ inl (ground (arith, eq, ok), λ j h. ground (arith, all j, is.descs))
      | inr (n, eq, lt, free, low) ↦
          let i = (desc t old).fds_index in
          let d : Fd = record { fds_index = i; busy = 1 } in
          let hn : n < 256 = omega (arith, is.descs) in
          let at_old : desc (set_desc t n d) old ≡ desc t old =
            ground (arith, desc-set_desc is n old d hn) in
          inr (
            n,
            more_refs (set_desc t n d) i,
            ground (arith, eq, ok, at_old),
            share_lem t is old n ho bo hn (ground arith),
            λ j h. ground (arith, low j),
          )
    ]

-- The state after the descriptor `fd` was closed: it is free, the others are as before, and its file is
-- given back exactly if the count reaches 0 and the file is not a pipe.
pub record Closed (t t' : Files) (fd : ℕ) : Type 0 where
  pub free : (desc t' fd).busy ≡ 0
  pub others : (j : ℕ) → j ≢ fd → desc t' j ≡ desc t j
  pub balanced : Balanced t t'
  pub given_back : (file t' (desc t fd).fds_index).alloc ≡ (
      if (file t (desc t fd).fds_index).refcount == 1
        && not (is_pipe (file t (desc t fd).fds_index))
      then 0
      else 1)
  pub other_files : (i : ℕ) → i ≢ (desc t fd).fds_index → file t' i ≡ file t i
  pub valid : IsFiles t'

-- The tail of `close`, once the count has been taken down and the file given back or kept.
closed_lem :
    (t : Files)
    → IsFiles t
    → (fd : ℕ) → fd < 256
    → (desc t fd).busy ≢ 0
    → (f : File) → f.refcount ≡ ((file t (desc t fd).fds_index).refcount + 2 ^ 32 - 1) % 2 ^ 32
    → f.alloc ≡ (
        if (file t (desc t fd).fds_index).refcount == 1
          && not (is_pipe (file t (desc t fd).fds_index))
        then 0
        else 1)
    → Closed t (closed (set_file t (desc t fd).fds_index f) fd) fd
closed_lem t is fd h b f count alloc =
    let i = (desc t fd).fds_index in
    let hi = is.index fd b in
    let t₁ = set_file t i f in
    let is₁ = set_file-IsFiles is i f hi (omega arith) in
    let d : Fd = record (desc t fd) { busy = 0 } in
    record {
      free = ap (λ (x : Fd). x.busy) (desc-set_desc is₁ fd fd d h) ∙ ground arith;
      others = λ j ne. ground (arith, desc-set_desc is₁ fd j d h);
      balanced =
          λ j hj. ground (arith, file-set_file is i j f hi, refs-set_desc is₁ fd j d h, is.word i);
      given_back = ground (arith, file-set_file is i i f hi);
      other_files = λ j ne. ground (arith, file-set_file is i j f hi);
      valid = set_desc-IsFiles is₁ fd d h (λ ne. absurd (ne refl));
    }

-- `close` refuses an argument that is not an open descriptor with -1 and changes nothing.
pub close_refused : (t : Files) (fd : ℤ) → fd_invalid t fd ≡ true → close t fd ≡ done (negsuc 0, t)
unfolding close
close_refused t (negsuc n) bad = refl
close_refused t (pos fd) bad = ground arith

-- `close` of an open descriptor, whose file is in use, succeeds and frees it.
pub close-Closed :
    (t : Files)
    → IsFiles t
    → (fd : ℕ) → fd_invalid t (pos fd) ≡ false
    → (file t (desc t fd).fds_index).alloc ≡ 1
    → (t' : Files) × (close t (pos fd) ≡ done (pos 0, t')) × Closed t t' fd
unfolding close fd_to_fds free_fds
close-Closed t is fd ok used =
    let (h, b) = fd_invalid-desc is fd ok in
    let i = (desc t fd).fds_index in
    let hi = is.index fd b in
    let less : File = record (file t i) {
      refcount = ((file t i).refcount + 2 ^ 32 - 1) % 2 ^ 32;
    } in
    let here : file (set_file t i less) i ≡ less = file-set_file is i i less hi ∙ ground arith in
    elim (Bool-cases ((file t i).refcount == 1 && not (is_pipe (file t i)))) [
      | inl last ↦
          let f : File = record less { alloc = 0 } in
          (
            closed (set_file t i f) fd,
            ground (arith, ok, b, here, used, is.word i, set-set t.fds i less f),
            closed_lem t is fd h b f refl (ground arith),
          )
      | inr kept ↦ (
        closed (set_file t i less) fd,
        ground (arith, ok, b, here, is.word i),
        closed_lem t is fd h b less refl (ground (arith, used)),
      )
    ]
