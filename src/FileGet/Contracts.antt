-- ===== src/FileGet/Contracts.antt =====
-- What each call of file-get/src/lib.rs does to the queue and the books, exactly.
pub mod Opening
pub mod Flushing
pub mod Commuting
pub mod Closing
pub mod Panics
pub mod Queue
pub mod Order
