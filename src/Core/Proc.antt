-- ===== src/Core/Proc.antt =====
-- core/proc.c: the table of tasks, and how an entry of it is made ready. The links `children` and `tasks` are those of
-- Struct/ListHead and are left out here; a table of descriptors stands for its page.
pub mod Alloc
pub mod Tests
use loos_lab.Struct.Mlist.{mlist_init}
use loos_lab.Base.{ℕ, ◌+◌, ◌-◌, ◌%◌, ◌^◌, Bool, true, false, not, none, some, List, [], get_or, set}
use loos_lab.Base.Run.{Run, ◌>>=◌, done, halted}
use loos_lab.Mm.PageTable.{pgtbl_create}
use loos_lab.Libc.Stdlib.Heap.{Heap}
use loos_lab.Fs.Files.{Fd, first_from, fdtable_alloc}
use loos_lab.Core.Sche.{ProcState, task_running}

-- `struct task_struct`; `used` is `allocs == USED`, and the names are left out.
pub record TaskStruct : Type 0 where
  pub pid : ℕ
  pub state : ProcState
  pub used : Bool
  pub context : ℕ
  pub trapframe : ℕ
  pub fdtable : List Fd
  pub bss : ℕ
  pub pgtbl : ℕ
  pub mapping_list : ℕ
  pub callback : ℕ
  pub timer_call_time : ℕ

-- `proc`, of PROC_MAX = 64 entries, `last_pid`, an `int` kept modulo 2 ^ 32, and the heap with the page allocator.
pub record Procs : Type 0 where
  pub heap : Heap
  pub proc : List TaskStruct
  pub last_pid : ℕ

abbrev pub no_process : TaskStruct
no_process = record {
  pid = 0;
  state = ProcState.task_running;
  used = false;
  context = 0;
  trapframe = 0;
  fdtable = [];
  bss = 0;
  pgtbl = 0;
  mapping_list = 0;
  callback = 0;
  timer_call_time = 0;
}

abbrev pub process : Procs → ℕ → TaskStruct
process t i = get_or (Procs.proc t) i no_process

abbrev pub is_unused : TaskStruct → Bool
is_unused p = not (TaskStruct.used p)

-- What `proc_alloc` writes to the entry it takes; the state is left as it was.
abbrev pub made_ready : TaskStruct → List Fd → (pid pgtbl mapping_list : ℕ) → TaskStruct
made_ready p fdtable pid pgtbl mapping_list = record p {
  context = 0;
  trapframe = 0;
  fdtable = fdtable;
  pid = pid;
  used = true;
  bss = 0;
  pgtbl = pgtbl;
  mapping_list = mapping_list;
  callback = 0;
  timer_call_time = 2 ^ 64 - 1;
}

-- `proc_alloc` behind the search, as an index of `proc`; the lists of children and of siblings are made empty.
unfoldable pub take_entry : Procs → (i : ℕ) → Run (ℕ × Procs)
unfolding fdtable_alloc pgtbl_create mlist_init
take_entry t i = do
  (fdtable, k₁) ← fdtable_alloc (Heap.kmem (Procs.heap t))
  (pgtbl, k₂) ← pgtbl_create k₁
  (mapping_list, h) ← mlist_init (record (Procs.heap t) { kmem = k₂ })
  let p = made_ready (process t i) fdtable (Procs.last_pid t) pgtbl mapping_list
  done (
    i,
    record { heap = h; proc = set (Procs.proc t) i p; last_pid = (Procs.last_pid t + 1) % 2 ^ 32 },
  )

unfoldable pub proc_alloc : Procs → Run (ℕ × Procs)
unfolding take_entry
proc_alloc t = elim (first_from is_unused 0 (Procs.proc t)) [
  | none ↦ halted
  | some i ↦ take_entry t i
]
