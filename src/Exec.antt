-- ===== src/Exec.antt =====
-- execlp by execve: practice/27.2/main.c under linux_programing_interface.
pub mod Defs
pub mod Faults
mod Tests
