-- ===== src/Dup.antt =====
-- dup and dup2 by fcntl: practice/5.4/mydup.c under linux_programing_interface.
pub mod Defs
pub mod Reference
mod Tests
