-- ===== src/Select.antt =====
-- One select over many pipes: practice/62.1/main.c under linux_programing_interface.
pub mod Defs
pub mod Reading
pub mod Drained
mod Tests
