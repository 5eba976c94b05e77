-- ===== src/Core.antt =====
-- The kernel core: tasks and their scheduling.
pub mod Sche
pub mod Syscall
pub mod Wait
pub mod Proc
pub mod Tests
