-- ===== src/Mm.antt =====
-- mm: page allocation and virtual memory.
pub mod Layout
pub mod Memblock
pub mod PageTable
pub mod Tests
