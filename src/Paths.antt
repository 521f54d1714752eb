-- ===== src/Paths.antt =====
-- The path functions of practice/31.2/main.c under linux_programing_interface. A C string is the
-- list of its bytes before the NUL; the thread's buffer of 4096 bytes is zeroed before each use and
-- is given by its bytes before the first NUL, so a string of 4096 bytes in it has no NUL.
pub mod Defs
pub mod Normal
pub mod Split
pub mod Keys
pub mod Buffers
pub mod Kept
mod Tests
