-- ===== src/Lib.antt =====
-- A model of the LoOS kernel (C, LoongArch): its C library, memory management, data structures,
-- ext2 reader, file descriptors, tasks, scheduler and some system calls, with the theorems that
-- make them correct.
--
-- The parts of the program and the files that model them:
--   * Base, Memory: lists, tests, integers, `|` on words, how a call ends (`Run`), byte-addressed
--     memory and 64-bit little-endian words in it. A memory is a function from addresses to
--     bytes; C code that writes memory takes one and returns one.
--   * Libc (lolibc/string.c): Libc/Block has memset, memcpy, memmove and memcmp, Libc/Str the
--     functions on terminated strings.
--   * Libc/Stdio (lolibc/stdio.c): numbers as text and back, padding and vsprintf. Stdio/Digits,
--     Numeral, Swap, Reading and RoundTrip go from the digits to the round trip; Padding and Plain
--     are about copy_fmt_str and vsprintf.
--   * Libc/Stdlib (lolibc/stdlib.c): atoi and other numbers, and Stdlib/Heap, which is malloc and
--     free on pages of the page allocator, with links and sizes in the memory.
--   * Mm (mm/memblock.c, mm/mm.c, mm/n_vm.c, include/memlayout.h, include/asm/mmu.h):
--     Mm/Memblock is the page allocator, whose free list runs through the free pages themselves,
--     with kmalloc and kfree; Mm/PageTable has the three-level page tables, which take their
--     pages from the allocator and clear them with memset. Mm/PageTable/Space says when an
--     address space is well-formed: a ghost map of roles tells which page serves which table.
--   * Struct (lolibc/kstruct/list.h, lolibc/struct/map.c, bitmap.c and mlist.c, lolibc/bits.h):
--     intrusive rings, whose links are two functions on addresses, the small map, bitmaps over bytes
--     of the memory, and Struct/Mlist, the lists whose elements `malloc` makes: Queue says when a
--     list stands in the memory, Push, Pop and Remove are about the operations.
--   * Fs (fs/ext2_fs.c, and the descriptor tables of core/proc.c): the table of open files and the
--     descriptors of the current process; `open_found` is `open` once `ext2_path_lookup` answered.
--   * Fs/Ext2 (fs/ext2.c, include/ext2.h): the reader of the ext2 file system. A packed struct is
--     its bytes, and fields are read at the offsets of its layout. Ext2/Dir has directories and
--     paths, Ext2/Data the blocks of a file and reads. The disk is a function from addresses to
--     bytes: what `ahci_read` brings into the buffer. Bytes that the C code reads from new pages and
--     arrays before it writes them are those of `new_page` and of the parameter `stack`.
--   * Driver/Uart (driver/uart.c): getstr over a list of what getch finds.
--   * Driver/Ahci (driver/ahci.c): the disk driver over what its registers hold, each a function of
--     the round that reads it. The device is a parameter: `Delivers` is what is asked of it. Sectors
--     is about what a command says, Answer about how a call ends, Transfer about `ahci_read` as a
--     whole, which is what the disk of Fs/Ext2 stands for.
--   * Fs/Read: `open` from its path on and `read`, which join Fs/Files, Fs/Ext2 and Driver/Uart.
--   * Core (core/sche.c, core/proc.c): task states, the scheduler loop as a step function, and the
--     machine of loop steps and of tasks that yield, exit, kill, start tasks (core/exec.c) and take up
--     zombies (core/syscall.c). `swtch` is the change of the place that goes on.
--   * Core/Proc (core/proc.c): the table of tasks and proc_alloc, on the heap and page allocator.
--   * Core/Syscall (core/syscall.c): sys_sendfile, which runs on Fs/Read, get_path and sys_chdir;
--     Syscall/Parent is about "..", Chdir and Back about whole calls.
--   * Core/Wait (core/syscall.c): sys_wait4 on a table of tasks. What other tasks do while the caller
--     yields is a parameter, and so is the layout of the external `struct rusage`.
--
-- Correspondence: a definition has the name of the C function, or a name of its own for a part of
-- one (a loop body, a branch). `panic` and failed `assert`s end a run as `halted`. `Log` and
-- `printf` calls are left out. Addresses are natural numbers below 2 ^ 64; an `int` that is compared
-- with 0 is a ℤ. `refcount` is kept modulo 2 ^ 32. A table access with an index outside the table
-- is undefined in C; here it reads an empty entry and writes nothing. The loop of `freerange` compares
-- `p + PGSIZE` without the wrap at 2 ^ 64, which matters only for an end in the last page of the
-- address space. `fdtable_alloc` takes a page of zeros, and the table is a list beside its bytes.
--
-- Bounds: the loops of string functions take fuel, and each theorem about them asks for one round
-- more than the length of the string; the loop of `freerange` runs at most once per page below its
-- end; the copy loops get one round per byte and one for the last test; the loop of `__map_pages`
-- gets two rounds more than there are pages below its end. The first loop of `_uitoa` gets one round
-- more than the value, and its swaps one for each digit; the loop of `ext2_fread` one round more than
-- the bytes asked for, the walk over a directory block one more than its size, a path one more than
-- its components. The theorems on blocks and inodes are about blocks of 1024 bytes, which is what
-- `read_block` reads. The loop of `bitmap_alloc` gets a round more than there are places, `sys_wait4`
-- a round more than it has to wait, `mlist_remove` a round for each element up to the one it takes, the
-- wait for the disk one for each time the slot is found busy, and one.
--
-- Not modelled: machine registers, the TLB and interrupts, console output; the
-- program loader, and the system calls and traps other than those above.
pub mod Base
pub mod Memory
pub mod Libc
pub mod Mm
pub mod Struct
pub mod Driver
pub mod Fs
pub mod Core
