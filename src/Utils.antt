-- ===== src/Utils.antt =====
-- The helpers of utils/.
pub mod MinMax
