-- ===== src/Mmr.antt =====
-- include/mw/core/mmr and src/mmr: the Merkle mountain range.
pub mod Index
pub mod Node
pub mod Backend
pub mod VectorBackend
pub mod FileBackend
pub mod Mountain
pub mod Tests
