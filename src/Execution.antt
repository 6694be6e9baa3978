-- ===== src/Execution.antt =====
-- crates/protocol/onx-execution: the binary Patricia dictionary, and the interpreter of contracts.
pub mod Dictionary
pub mod Types
pub mod Machine
pub mod Instructions
pub mod Interpreter
mod Examples
