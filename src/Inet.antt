-- ===== src/Inet.antt =====
-- The socket helpers of common/inet_sockets.c under linux_programing_interface.
pub mod Sockets
pub mod Connecting
pub mod Listening
mod Tests
