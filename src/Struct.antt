-- ===== src/Struct.antt =====
-- The data structures of lolibc/kstruct and lolibc/struct.
pub mod ListHead
pub mod Map
pub mod Bitmap
pub mod Mlist
pub mod Tests
