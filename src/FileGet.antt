-- ===== src/FileGet.antt =====
-- The crate `libp2p-file-get`, file-get/src: its data, its parts, and what is proved of them.
pub mod Types
pub mod Protocol
pub mod Connections
pub mod Handler
pub mod Behaviour
pub mod Swarm
pub mod Reports
pub mod Driver
pub mod Contracts
pub mod Live
pub mod Tracking
pub mod Upgrades
pub mod Open
mod Tests
