-- ===== src/Net.antt =====
-- net_service/: the peers of a host and their connections.
pub mod Addresses
pub mod Identity
pub mod Peer
pub mod Contexts
pub mod Timeouts
pub mod Service
mod Examples
