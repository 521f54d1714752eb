-- ===== src/Env.antt =====
-- Setting and unsetting of environment variables: practice/6.3/env.c under
-- linux_programing_interface.
pub mod Defs
pub mod Kept
pub mod Lookup
mod Tests
