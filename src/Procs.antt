-- ===== src/Procs.antt =====
-- The processes of a user, from /proc: practice/12.1/main.c under linux_programing_interface.
pub mod Status
pub mod Scan
pub mod Found
pub mod OfUser
mod Tests
