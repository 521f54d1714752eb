-- ===== src/Echo.antt =====
-- The echo server over TCP and UDP: practice/62.2/server.c under
-- linux_programing_interface, its loops over select and epoll. errPrintf of common/errout.c ends the
-- process.
pub mod Handlers
pub mod Loops
pub mod Views
pub mod Rounds
pub mod Starvation
mod Tests
