-- ===== src/Children.antt =====
-- The parent that reaps its children in a SIGCHLD handler: practice/26.5/multi_SIGCHLD.c under
-- linux_programing_interface (routines/26.5.multi_SIGCHLD has the same file).
pub mod System
pub mod Reaping
pub mod Progress
mod Tests
