-- ===== src/Watch.antt =====
-- The directory watcher: practice/19.1/main.c under linux_programing_interface.
pub mod Table
pub mod Events
pub mod Adding
pub mod Deleting
mod Tests
