-- ===== src/Drivers.antt =====
-- kernel/drivers: the keyboard.
pub mod Kbd
