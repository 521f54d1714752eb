-- ===== src/Delay.antt =====
-- A delay by CPU time in two processes: practice/35.3/main.c under linux_programing_interface.
pub mod Defs
pub mod Late
pub mod Exact
mod Tests
