-- ===== src/Fs.antt =====
-- The file layer of fs/.
pub mod Files
pub mod Ext2
pub mod Read
pub mod Tests
