-- ===== src/Password.antt =====
-- The check of a password: routines/8.2.check_password/check_password.c under
-- linux_programing_interface.
pub mod Defs
pub mod Deciding
pub mod Clearing
mod Tests
