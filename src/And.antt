-- ===== src/And.antt =====
-- and/: the neighbour discovery algorithm.
pub mod Effect
pub mod State
pub mod Clear
pub mod Info
pub mod World
pub mod Members
pub mod Monitor
pub mod Steps
pub mod Run
pub mod Ends
pub mod Call
pub mod Counters
pub mod Closing
pub mod Sessions
pub mod Rounds
pub mod Announcing
pub mod Keeping
pub mod Calm
pub mod Service
pub mod Examples
