-- ===== src/Util.antt =====
-- include/mw/core/util
pub mod BitUtil
pub mod EndianUtil
pub mod HexUtil
