-- ===== src/Transfer.antt =====
-- The two file servers over message queues, under linux_programing_interface: practice/46.4
-- (System V queues: svmsg_file_server.c, svmsg_file_client.c) and practice/52.2 (POSIX queues:
-- file_server.c, file_client.c). `Chunks` is what the successive calls of `read` return.
pub mod Chunks
pub mod Posix
pub mod Sysv
pub mod Service
pub mod Ending
pub mod Asking
pub mod Mqueue
pub mod Queueing
pub mod Requesting
mod Tests
mod PosixTests
