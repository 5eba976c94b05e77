-- ===== src/Fs/Tests.antt =====
-- Concrete runs of the file tables, from the state that the kernel starts with.

use loos_lab.Base.Int.{pos, negsuc}
use loos_lab.Base.Run.{done, halted}
use loos_lab.Base.{
  ℕ, ◌<◌, ◌≡◌, refl, ◌≢◌, ◌⊎◌, true, false, some, [], ◌∷◌, arith, replicate, length-replicate,
  get_or-replicate,
}
use loos_lab.Mm.Tests.{page₁, page₂, two_pages, two_pages-IsKmem}
use loos_lab.Fs.Files.{
  File, Files, no_file, no_fd, file, desc, std_fd, open_found, fd_invalid, close, dup, dup3,
}
use loos_lab.Fs.Files.Valid.{IsFiles}
use loos_lab.Fs.Files.Share.{Dupped, dup-Dupped, Closed, close-Closed}
use loos_lab.Fs.Files.Open.{Opened, open_found-Opened}
use loos_lab.Fs.Files.Replace.{Replaced, dup3-Replaced, standard-IsFiles}

abbrev std_file : File
std_file = record no_file { alloc = 1 }

abbrev start : Files
start = record {
  kmem = two_pages;
  fds = std_file ∷ std_file ∷ std_file ∷ replicate 253 no_file;
  fdtable = std_fd 0 ∷ std_fd 1 ∷ std_fd 2 ∷ replicate 253 no_fd;
}

start-IsFiles : IsFiles start
start-IsFiles =
    standard-IsFiles two_pages (replicate 253 no_file) (replicate 253 no_fd)
      (length-replicate 253 no_file) (length-replicate 253 no_fd)
      (λ i. get_or-replicate 253 i no_file) (λ i. get_or-replicate 253 i no_fd)

stdout_open : fd_invalid start (pos 1) ≡ false
unfolding fd_invalid
stdout_open = refl

far_closed : fd_invalid start (pos 300) ≡ true
unfolding fd_invalid
far_closed = refl

dup-Dupped_example :
    ((dup start (pos 1) ≡ done (negsuc 0, start)) × ((j : ℕ) → j < 256 → (desc start j).busy ≢ 0))
    ⊎ ((n : ℕ) × (t' : Files) × (dup start (pos 1) ≡ done (pos n, t'))
        × Dupped start t' 1 n
        × ((j : ℕ) → j < n → (desc start j).busy ≢ 0))
dup-Dupped_example = dup-Dupped start start-IsFiles 1 stdout_open

close-Closed_example : (t' : Files) × (close start (pos 1) ≡ done (pos 0, t')) × Closed start t' 1
close-Closed_example = close-Closed start start-IsFiles 1 stdout_open refl

dup3-Replaced_example : (t' : Files) × (dup3 start 1 5 0 ≡ done (pos 5, t')) × Replaced start t' 1 5
dup3-Replaced_example =
    dup3-Replaced start start-IsFiles 1 5 0 (omega arith) stdout_open (omega arith) (omega arith)
      (λ e. absurd (ground (arith, e)))

open_found-Opened_example :
    ((open_found start (some 0x1000) 2 ≡ done (negsuc 0, start))
      × ((j : ℕ) → j < 256 → (desc start j).busy ≢ 0))
    ⊎ ((open_found start (some 0x1000) 2 ≡ halted) × ((j : ℕ) → j < 256 → (file start j).alloc ≢ 0))
    ⊎ ((fd : ℕ) × (i : ℕ) × (t' : Files) × (open_found start (some 0x1000) 2 ≡ done (pos fd, t'))
        × Opened start t' 2 fd i page₁)
open_found-Opened_example =
    open_found-Opened start start-IsFiles page₁ (page₂ ∷ []) two_pages-IsKmem 0x1000 2
