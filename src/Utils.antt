-- ===== src/Utils.antt =====
-- The text helpers of src/agc_utils.c.
pub mod Separate
pub mod Text
