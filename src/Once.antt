-- ===== src/Once.antt =====
-- An initialization that is done once: practice/31.1/main.c under linux_programing_interface.
pub mod Defs
pub mod AtMostOnce
mod Tests
