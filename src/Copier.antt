-- ===== src/Copier.antt =====
-- The file copier with two threads and two semaphores: practice/53.1/main.c under
-- linux_programing_interface. The program counters name the calls that the threads stand at; one
-- step is one call with the assignments that follow it. How much `write` stores is part of the
-- schedule; `read` is taken to succeed; `sem_wait` on an initialised semaphore fails with EINTR only.
pub mod System
pub mod Invariant
pub mod Progress
mod Tests
