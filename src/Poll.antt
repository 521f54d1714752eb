-- ===== src/Poll.antt =====
-- One poll over many pipes: routines/62.3.poll_pipe/poll_pipe.c under linux_programing_interface.
pub mod Defs
pub mod Picked
mod Tests
