-- ===== src/Svmsg.antt =====
-- The file server over System V queues of routines/46.7.svmsg under linux_programing_interface:
-- svmsg_file_server.c and svmsg_file_client.c.
pub mod Server
pub mod Serving
pub mod Client
mod Tests
