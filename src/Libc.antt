-- ===== src/Libc.antt =====
-- The C library of the kernel.
pub mod Block
pub mod Str
pub mod Stdio
pub mod Stdlib
pub mod Tests
