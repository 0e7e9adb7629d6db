-- ===== src/Daemon.antt =====
-- daemon/infod.c: the clients' records, their commands, and the notices of changes.
pub mod State
pub mod Peer
pub mod Store
pub mod Handlers
pub mod Input
pub mod Invariant
pub mod Transaction
pub mod Subscribe
pub mod Run
mod Tests
