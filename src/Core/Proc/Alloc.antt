-- ===== src/Core/Proc/Alloc.antt =====
-- `proc_alloc` of core/proc.c: the entry it takes, and that process numbers stay apart.

use loos_lab.Struct.Mlist.{mlist_init}
use loos_lab.Mm.PageTable.{pgtbl_create}
use loos_lab.Mm.PageTable.Entries.{zeroed_page_lem}
use loos_lab.Fs.Files.{no_fd, std_fd, fdtable_alloc}
use loos_lab.Fs.Files.Count.{first_from_lem}
use loos_lab.Base.{
  ℕ, ◌+◌, ◌%◌, ◌^◌, ◌<◌, ◌≡◌, refl, sym, ap, ◌∙◌, ◌≢◌, ◌⊎◌, inl, inr, Bool, true, false, List, ◌∷◌,
  arith, leb, ◌==◌, if◌then◌else◌, ==→eq, ==→ne, Bool-cases, length, get_or, set, replicate,
  length-set, get_or-set_self, get_or-set_ne,
}
use loos_lab.Base.Run.{Run, ◌>>=◌, done, halted}
use loos_lab.Mm.Memblock.{kalloc_page_memblock, kmalloc}
use loos_lab.Mm.Memblock.Laws.{IsKmem, kalloc_page_memblock-IsKmem}
use loos_lab.Libc.Stdlib.Heap.{Heap, apply_alloc, malloc, free}
use loos_lab.Core.Proc.{
  TaskStruct, Procs, no_process, process, is_unused, made_ready, take_entry, proc_alloc,
}

-- The run returns.
abbrev Done : {A : Type 0} → Run A → Type 0
Done {A} x = (r : A) × (x ≡ done r)

bind-Done :
    {A B : Type 0} (x : Run A) (f : A → Run B) → Done x → ((a : A) → Done (f a)) → Done (x >>= f)
bind-Done x f (a, e) g = let (b, e') = g a in (b, ap (λ y. y >>= f) e ∙ e')

pick : {A : Type 0} (c : Bool) (x y : Run A) → Done x → Done y → Done (if c then x else y)
pick true x y p q = p
pick false x y p q = q

-- With a page free, a small `malloc` returns.
malloc-Done : (h : Heap) (x : ℕ) (xs : List ℕ) → IsKmem (Heap.kmem h) (x ∷ xs) → Done (malloc h 16)
unfolding malloc apply_alloc kmalloc
malloc-Done h x xs is =
    let (k, eq, _, _, _, _) = kalloc_page_memblock-IsKmem (Heap.kmem h) x xs is in
    pick (get_or (Heap.fastbin h) 1 0 == 0) _ _
      (bind-Done _ _
        (pick (leb (Heap.p_end h) (Heap.p_start h + 32)) _ _
          (bind-Done (kalloc_page_memblock (Heap.kmem h)) _ ((x, k), eq) (λ r. (_, refl)))
          (_, refl))
        (λ r. (_, refl)))
      (_, refl)

mlist_init-Done :
    (h : Heap) (x : ℕ) (xs : List ℕ) → IsKmem (Heap.kmem h) (x ∷ xs) → Done (mlist_init h)
unfolding mlist_init
mlist_init-Done h x xs is = bind-Done (malloc h 16) _ (malloc-Done h x xs is) (λ r. (_, refl))

-- The table has 64 entries, and the numbers of the used ones have all been handed out.
pub record IsProcs (t : Procs) : Type 0 where
  pub size : length (Procs.proc t) ≡ 64
  pub handed_out :
      (j : ℕ)
      → TaskStruct.used (process t j) ≡ true
      → TaskStruct.pid (process t j) < Procs.last_pid t

-- After `proc_alloc`: the first unused entry is used, under a number that no other used entry has; the others are as
-- before.
pub record Allocated (t t' : Procs) (i : ℕ) : Type 0 where
  pub inside : i < 64
  pub was_unused : TaskStruct.used (process t i) ≡ false
  pub first : (j : ℕ) → j < i → TaskStruct.used (process t j) ≡ true
  pub now_used : TaskStruct.used (process t' i) ≡ true
  pub others : (j : ℕ) → j ≢ i → process t' j ≡ process t j
  pub apart :
      (j : ℕ)
      → j ≢ i
      → TaskStruct.used (process t' j) ≡ true
      → TaskStruct.pid (process t' j) ≢ TaskStruct.pid (process t' i)
  pub valid : IsProcs t'

allocated_lem :
    (t : Procs)
    → IsProcs t
    → Procs.last_pid t + 1 < 2 ^ 31
    → (h : Heap) (i : ℕ) (p : TaskStruct) → i < 64
    → TaskStruct.used (process t i) ≡ false
    → ((j : ℕ) → j < i → TaskStruct.used (process t j) ≡ true)
    → TaskStruct.used p ≡ true
    → TaskStruct.pid p ≡ Procs.last_pid t
    → Allocated t
        (record {
          heap = h;
          proc = set (Procs.proc t) i p;
          last_pid = (Procs.last_pid t + 1) % 2 ^ 32;
        })
        i
allocated_lem t is small h i p lt free low used pid =
    let t' : Procs = record {
      heap = h;
      proc = set (Procs.proc t) i p;
      last_pid = (Procs.last_pid t + 1) % 2 ^ 32;
    } in
    let here : process t' i ≡ p =
      get_or-set_self (Procs.proc t) i p no_process (omega (arith, is.size)) in
    let others : (j : ℕ) → j ≢ i → process t' j ≡ process t j =
      λ j ne. get_or-set_ne (Procs.proc t) i j p no_process (λ e. ne (sym e)) in
    record {
      inside = lt;
      was_unused = free;
      first = low;
      now_used = ap (λ q. TaskStruct.used q) here ∙ used;
      others = others;
      apart = λ j ne u.
          let old : TaskStruct.used (process t j) ≡ true =
            sym (ap (λ q. TaskStruct.used q) (others j ne)) ∙ u in
          λ e. omega (
            arith,
            ap (λ q. TaskStruct.pid q) (others j ne),
            ap (λ q. TaskStruct.pid q) here,
            pid,
            is.handed_out j old,
            e,
          );
      valid = record {
        size = length-set (Procs.proc t) i p ∙ is.size;
        handed_out = λ j u. elim (Bool-cases (j == i)) [
          | inl e ↦ omega (
            arith,
            ap (λ k. TaskStruct.pid (process t' k)) (==→eq j i e),
            ap (λ q. TaskStruct.pid q) here,
            pid,
          )
          | inr e ↦
              let ne = ==→ne j i e in
              let old : TaskStruct.used (process t j) ≡ true =
                sym (ap (λ q. TaskStruct.used q) (others j ne)) ∙ u in
              omega (arith, ap (λ q. TaskStruct.pid q) (others j ne), is.handed_out j old)
        ];
      };
    }

take_entry_lem :
    (t : Procs) (i x y z : ℕ) (xs : List ℕ)
    → IsKmem (Heap.kmem (Procs.heap t)) (x ∷ (y ∷ (z ∷ xs)))
    → (h : Heap) × (list : ℕ) × (take_entry t i
        ≡ done (
          i,
          record {
            heap = h;
            proc = set (Procs.proc t) i (
                made_ready
                  (process t i)
                  (std_fd 0 ∷ (std_fd 1 ∷ (std_fd 2 ∷ replicate 253 no_fd)))
                  (Procs.last_pid t)
                  y
                  list);
            last_pid = (Procs.last_pid t + 1) % 2 ^ 32;
          },
        ))
unfolding take_entry fdtable_alloc pgtbl_create
take_entry_lem t i x y z xs pages =
    let (k₁, eq₁, is₁, _) = zeroed_page_lem (Heap.kmem (Procs.heap t)) x (y ∷ (z ∷ xs)) pages in
    let (k₂, eq₂, is₂, _) = zeroed_page_lem k₁ y (z ∷ xs) is₁ in
    let ((list, h), eq₃) = mlist_init-Done (record (Procs.heap t) { kmem = k₂ }) z xs is₂ in
    (h, list, rw (eq₁, eq₂, eq₃) refl)

-- With three pages free, fewer than 2 ^ 31 - 1 process numbers handed out and those in use among them, `proc_alloc` halts if every entry is used, and
-- else takes the first unused one, as `Allocated` says.
pub proc_alloc-Allocated :
    (t : Procs)
    → IsProcs t
    → Procs.last_pid t + 1 < 2 ^ 31
    → (x y z : ℕ) (xs : List ℕ) → IsKmem (Heap.kmem (Procs.heap t)) (x ∷ (y ∷ (z ∷ xs)))
    → ((proc_alloc t ≡ halted) × ((j : ℕ) → j < 64 → TaskStruct.used (process t j) ≡ true))
      ⊎ ((i : ℕ) × (t' : Procs) × (proc_alloc t ≡ done (i, t')) × Allocated t t' i)
unfolding proc_alloc
proc_alloc-Allocated t is small x y z xs pages =
    elim (first_from_lem is_unused 0 (Procs.proc t) no_process) [
      | inl (eq, all) ↦
          inl (ground (arith, eq), λ j h. ground (arith, all j (omega (arith, is.size))))
      | inr (i, eq, lt, unused, low) ↦
          let (h, list, taken) = take_entry_lem t i x y z xs pages in
          let fds = std_fd 0 ∷ (std_fd 1 ∷ (std_fd 2 ∷ replicate 253 no_fd)) in
          let p : TaskStruct = made_ready (process t i) fds (Procs.last_pid t) y list in
          inr (
            i,
            record {
              heap = h;
              proc = set (Procs.proc t) i p;
              last_pid = (Procs.last_pid t + 1) % 2 ^ 32;
            },
            ground (arith, eq) ∙ taken,
            allocated_lem t is small h i p (omega (arith, is.size)) (ground (arith, unused))
                (λ j l. ground (arith, low j l)) refl refl,
          )
    ]
