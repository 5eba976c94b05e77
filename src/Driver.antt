-- ===== src/Driver.antt =====
-- The devices of driver/.
pub mod Uart
pub mod Ahci
pub mod Tests
