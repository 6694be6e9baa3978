-- ===== src/Channels.antt =====
-- crates/protocol/onx-payment-channels: the arbiter contract of a two-party channel and the daemon
-- that runs beside it.
pub mod State
pub mod Arbiter
pub mod Merkle
pub mod Daemon
mod Examples
