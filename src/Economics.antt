-- ===== src/Economics.antt =====
-- crates/protocol/onx-economics: storage fees, the fee split, epoch rewards and slashing.
pub mod Fees
pub mod Slashing
mod Examples
pub mod Rewards
