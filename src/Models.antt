-- ===== src/Models.antt =====
-- include/mw/core/models: the values that transactions and blocks are made of.
pub mod BigInt
pub mod ProofMessage
pub mod Tx
pub mod Block
pub mod Net
