-- ===== src/Signals.antt =====
-- A process that counts the signals it gets, and one that sends them: practice/20.1/sig_receive.c
-- and sig_sender.c under linux_programing_interface.
pub mod Receiver
pub mod Sender
pub mod Counted
pub mod Ending
mod Tests
