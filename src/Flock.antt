-- ===== src/Flock.antt =====
-- Two processes that lock two files in opposite order: practice/55.2/main.c under
-- linux_programing_interface.
pub mod System
pub mod Deadlock
mod Tests
