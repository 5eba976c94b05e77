-- ===== src/Fs/Files/Replace.antt =====
-- `dup3`, a copy that is closed while the file is open, and the tables at the start.

use loos_lab.Mm.Memblock.{Kmem}
use loos_lab.Fs.Files.Count.{count}
use loos_lab.Base.Int.{ℤ, pos, negsuc}
use loos_lab.Base.Run.{Run, ◌>>=◌, done}
use loos_lab.Base.{
  ℕ, zero, suc, ◌/◌, ◌%◌, ◌^◌, ◌≤◌, ◌<◌, bit_or, ◌≡◌, ap, ◌∙◌, ◌≢◌, ◌⊎◌, inl, inr, false, List, ◌∷◌,
  arith, ◌==◌, if◌then◌else◌, Bool-cases, length, get_or, set-get_or,
}
use loos_lab.Fs.Files.{
  File, Fd, Files, no_file, no_fd, file, desc, set_desc, std_fd, fd_to_fds, fd_invalid, more_refs,
  is_pipe, close, fcntl, dup, dup3,
}
use loos_lab.Fs.Files.Valid.{IsFiles, desc-set_desc, fd_invalid-desc}
use loos_lab.Fs.Files.Share.{Balanced, Dupped, share_lem, dup-Dupped, close-Closed}

Balanced-trans : (a b c : Files) → Balanced a b → Balanced b c → Balanced a c
Balanced-trans a b c h h' i hi = omega (arith, h i hi, h' i hi)

-- In `t'` the descriptor `new` shares the file of `old`, and no other descriptor changed.
pub record Replaced (t t' : Files) (old new : ℕ) : Type 0 where
  pub shared : desc t' new ≡ record { fds_index = (desc t old).fds_index; busy = 1 }
  pub others : (j : ℕ) → j ≢ new → desc t' j ≡ desc t j
  pub balanced : Balanced t t'
  pub valid : IsFiles t'

-- The part of `dup3` behind the closing of the new descriptor.
share_step : Files → (oldfd newfd flags : ℕ) → Run (ℤ × Files)
share_step t₁ oldfd newfd flags = do
  let t₂ = set_desc t₁ newfd (record { fds_index = (desc t₁ oldfd).fds_index; busy = 1 })
  f ← fd_to_fds t₂ oldfd
  let t₃ = more_refs t₂ f
  if (flags / 2 ^ 19) % 2 == 0 then done (pos newfd, t₃) else do
    (now, t₄) ← fcntl t₃ (pos newfd) 1 0
    elim now [
      | negsuc n ↦ done (negsuc 0, t₄)
      | pos busy ↦ do
        (ok, t₅) ← fcntl t₄ (pos newfd) 2 (bit_or busy 1)
        elim ok [ negsuc n ↦ done (negsuc 0, t₅) | pos n ↦ done (pos newfd, t₅) ]
    ]

share_step-Dupped :
    (t : Files)
    → IsFiles t
    → (old new flags : ℕ) → old ≢ new
    → old < 256
    → (desc t old).busy ≢ 0
    → new < 256
    → (desc t new).busy ≡ 0
    → (t' : Files) × (share_step t old new flags ≡ done (pos new, t')) × Dupped t t' old new
unfolding share_step fd_to_fds fcntl fd_invalid
share_step-Dupped t is old new flags ne ho bo hn bn =
    let d : Fd = record { fds_index = (desc t old).fds_index; busy = 1 } in
    let t₃ = more_refs (set_desc t new d) (desc t old).fds_index in
    let sh = share_lem t is old new ho bo hn bn in
    let at_old : desc (set_desc t new d) old ≡ desc t old =
      desc-set_desc is new old d hn ∙ ground arith in
    let at_new : desc t₃ new ≡ d = sh.shared in
    let same : set_desc t₃ new (desc t₃ new) ≡ t₃ =
      ap (λ (ds : List Fd). record t₃ { fdtable = ds }) (set-get_or t₃.fdtable new no_fd) in
    (t₃, ground (arith, at_old, at_new, same, bo), sh)

-- On well-formed tables `dup3` of an open descriptor to another place of the table, whose busy word is
-- 0 or 1 and whose file is in use if it is open, succeeds: the place, closed first if it was open, shares
-- the file from then on, with or without O_CLOEXEC, and the counts stay in step.
pub dup3-Replaced :
    (t : Files)
    → IsFiles t
    → (old new flags : ℕ) → old ≢ new
    → fd_invalid t (pos old) ≡ false
    → new < 256
    → (desc t new).busy ≤ 1
    → ((desc t new).busy ≡ 1 → (file t (desc t new).fds_index).alloc ≡ 1)
    → (t' : Files) × (dup3 t old new flags ≡ done (pos new, t')) × Replaced t t' old new
unfolding dup3 share_step
dup3-Replaced t is old new flags ne ok hn small used =
    let (ho, bo) = fd_invalid-desc is old ok in
    elim (Bool-cases ((desc t new).busy == 1)) [
      | inl open_yet ↦
          let (t₁, eq, cl) =
            close-Closed t is new (unfold fd_invalid in ground arith) (used (ground arith)) in
          let same : desc t₁ old ≡ desc t old = cl.others old ne in
          let (t₂, eq₂, sh) =
            share_step-Dupped t₁ cl.valid old new flags ne ho (ground arith) hn cl.free in
          (
            t₂,
            ground (arith, ok, eq, eq₂),
            record {
              shared = sh.shared ∙ ground arith;
              others = λ j nj. sh.others j nj ∙ cl.others j nj;
              balanced = Balanced-trans t t₁ t₂ cl.balanced sh.balanced;
              valid = sh.valid;
            },
          )
      | inr closed_yet ↦
          let (t₂, eq₂, sh) =
            share_step-Dupped t is old new flags ne ho bo hn (ground (arith, small)) in
          (
            t₂,
            ground (arith, ok, eq₂),
            record {
              shared = sh.shared;
              others = sh.others;
              balanced = sh.balanced;
              valid = sh.valid;
            },
          )
    ]

-- Where the count of an open file that is no pipe is 0, as `open` leaves it, and its descriptor is
-- duplicated, which fails only on a full table, closing the copy gives the file back although the first
-- descriptor is open and still names it.
pub close-dup_gives_back :
    (t : Files)
    → IsFiles t
    → (fd : ℕ) → fd_invalid t (pos fd) ≡ false
    → (file t (desc t fd).fds_index).alloc ≡ 1
    → (file t (desc t fd).fds_index).refcount ≡ 0
    → is_pipe (file t (desc t fd).fds_index) ≡ false
    → (dup t (pos fd) ≡ done (negsuc 0, t))
      ⊎ ((n : ℕ) × (t₁ : Files) × (t₂ : Files) × (dup t (pos fd) ≡ done (pos n, t₁))
          × (close t₁ (pos n) ≡ done (pos 0, t₂))
          × ((desc t₂ fd).busy ≢ 0)
          × ((file t₂ (desc t₂ fd).fds_index).alloc ≡ 0))
close-dup_gives_back t is fd ok used count file_kind =
    let (hfd, bfd) = fd_invalid-desc is fd ok in
    elim (dup-Dupped t is fd ok) [
      | inl (full, _) ↦ inl full
      | inr (n, t₁, eq, du, _) ↦
          let same : (desc t₁ n).fds_index ≡ (desc t fd).fds_index =
            ap (λ (d : Fd). d.fds_index) du.shared in
          let open_copy : (desc t₁ n).busy ≡ 1 = ap (λ (d : Fd). d.busy) du.shared in
          let fields = du.fields (desc t fd).fds_index in
          let (t₂, eq₂, cl) =
            close-Closed t₁ du.valid n (unfold fd_invalid in ground (arith, open_copy, du.was_free))
              (ground (arith, same, fields, used)) in
          let apart : fd ≢ n = λ e. ground (arith, du.was_free, bfd) in
          let kept : desc t₂ fd ≡ desc t fd = cl.others fd apart ∙ du.others fd apart in
          inr (
            n,
            t₁,
            t₂,
            eq,
            eq₂,
            ground (arith, kept, bfd),
            ground (arith, kept, same, cl.given_back, du.counted, fields),
          )
    ]

-- The tables as `fs_init` and `fdtable_alloc` leave them.
pub standard-IsFiles :
    (k : Kmem) (fs : List File) (ds : List Fd)
    → length fs ≡ 253
    → length ds ≡ 253
    → ((i : ℕ) → get_or fs i no_file ≡ no_file)
    → ((i : ℕ) → get_or ds i no_fd ≡ no_fd)
    → IsFiles (record {
      kmem = k;
      fds =
          record no_file { alloc = 1 }
          ∷ record no_file { alloc = 1 }
          ∷ record no_file { alloc = 1 }
          ∷ fs;
      fdtable = std_fd 0 ∷ std_fd 1 ∷ std_fd 2 ∷ ds;
    })
standard-IsFiles k fs ds hf hd nof nod = record {
  files = omega arith;
  descs = omega arith;
  index = indices;
  word = words;
}
  where
    indices :
        (fd : ℕ)
        → (get_or (std_fd 0 ∷ std_fd 1 ∷ std_fd 2 ∷ ds) fd no_fd).busy ≢ 0
        → (get_or (std_fd 0 ∷ std_fd 1 ∷ std_fd 2 ∷ ds) fd no_fd).fds_index < 256
    indices zero b = omega arith
    indices (suc zero) b = omega arith
    indices (suc (suc zero)) b = omega arith
    indices (suc (suc (suc i))) b = ground (arith, nod i)

    std : File
    std = record no_file { alloc = 1 }

    words : (i : ℕ) → (get_or (std ∷ std ∷ std ∷ fs) i no_file).refcount < 2 ^ 32
    words zero = omega arith
    words (suc zero) = omega arith
    words (suc (suc zero)) = omega arith
    words (suc (suc (suc i))) = ground (arith, nof i)
