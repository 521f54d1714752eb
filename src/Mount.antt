-- ===== src/Mount.antt =====
-- The options of mount: routines/14.4.t_mount/t_mount.c under linux_programing_interface.
pub mod Defs
pub mod Options
mod Tests
