-- ===== src/Join.antt =====
-- The main thread that is to join its threads as they end: routines/30.4.thread_multijoin under
-- linux_programing_interface.
pub mod System
pub mod SelfLock
mod Tests
