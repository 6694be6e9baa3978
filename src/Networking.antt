-- ===== src/Networking.antt =====
-- crates/node/onx-networking: the reliable transfer of large payloads over datagrams.
pub mod Error
pub mod Rldp
mod Examples
