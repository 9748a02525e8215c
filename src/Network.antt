-- ===== src/Network.antt =====
-- src/network/mod.rs: the event loop between the client, the swarm and the file system.
pub mod Behaviour
pub mod Types
pub mod Replies
pub mod Commands
pub mod Events
pub mod Links
pub mod Outcomes
pub mod Handled
pub mod Pending
pub mod Answering
pub mod Discovery
pub mod Books
pub mod Settling
pub mod Settled
pub mod Loop
pub mod Panics
pub mod Failing
pub mod Alone
pub mod Client
pub mod Startup
pub mod Codec
pub mod Returns
pub mod Runs
pub mod Whole
mod Tests
