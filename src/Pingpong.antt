-- ===== src/Pingpong.antt =====
-- Two processes that send letters through two pipes: practice/44.1/main.c under
-- linux_programing_interface.
pub mod System
pub mod Exchange
mod Tests
