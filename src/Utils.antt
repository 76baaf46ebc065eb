-- ===== src/Utils.antt =====
-- src/utils: the helpers on bytes, digits and text that the protocol code shares.
pub mod Binary
pub mod Number
pub mod Text
pub mod Header
pub mod Decimal
