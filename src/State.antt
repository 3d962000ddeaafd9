-- ===== src/State.antt =====
-- src/state.rs: the case mapping, the client record, the channel record and the shared state.
pub mod Casemap
pub mod Sets
pub mod Client
pub mod Channel
pub mod Server
