-- ===== src/Primitives.antt =====
-- crates/protocol/onx-primitives: canonical encodings of integers and byte strings, domain tags,
-- keys and signatures. `Crypto` stands for the SHA-256 and Ed25519 libraries, which are not part
-- of the repository: keys and signatures are the byte strings that encode them.
pub mod Error
pub mod Uint
pub mod Sint
pub mod FixedBytes
pub mod BoundedBytes
pub mod Hash
pub mod Signature
mod Examples
