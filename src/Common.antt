-- ===== src/Common.antt =====
-- elegance/common.
pub mod Random
