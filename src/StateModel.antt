-- ===== src/StateModel.antt =====
-- crates/protocol/onx-state-model: cells and account states.
pub mod Error
pub mod Cell
pub mod Account
mod Examples
