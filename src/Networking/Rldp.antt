-- ===== src/Networking/Rldp.antt =====
-- crates/node/onx-networking/src/rldp.rs: the frames of a transfer, its sender and its receiver.
pub mod Frame
pub mod Sender
pub mod Receiver
pub mod Chunks
pub mod Store
pub mod Rounds
pub mod Loop
pub mod Start
pub mod Transfer
