-- ===== src/Notify.antt =====
-- The file server that waits for a notification of its queue: practice/52.2.b/file_server.c under
-- linux_programing_interface.
pub mod System
pub mod Stalling
mod Tests
