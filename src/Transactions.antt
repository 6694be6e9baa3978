-- ===== src/Transactions.antt =====
-- crates/protocol/onx-transactions: admission of messages, the output queue and the tracker of
-- delivered messages.
pub mod Error
pub mod OutputQueue
pub mod Processed
pub mod Admission
pub mod Router
mod Examples
