-- ===== src/Ftok.antt =====
-- The key that ftok makes of a file, made by hand: practice/45.1/main.c under
-- linux_programing_interface.
pub mod Defs
pub mod BitOr
pub mod Equal
mod Tests
