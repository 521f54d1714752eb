-- ===== src/Talk.antt =====
-- The System V message-queue talk programs: practice/46.6/talk_server.c, talk_client.c and
-- talk_common.h under linux_programing_interface. `Table` is the array of clients, `Server` the
-- message handlers and the main loop, `Process` the start and the exit of the server, `Client` those
-- of the client; the proofs are in the others.
pub mod Table
pub mod Server
pub mod Process
pub mod Client
pub mod Greeting
pub mod Prompting
pub mod Delivery
mod Tests
pub mod Directory
pub mod Loop
pub mod Session
pub mod Slots
