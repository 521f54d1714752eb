-- ===== src/Remote.antt =====
-- A server that runs the commands of its clients: practice/61.5/client.c, server.c and common.h
-- under linux_programing_interface.
pub mod Defs
pub mod Command
pub mod Redirect
pub mod Serving
mod Tests
