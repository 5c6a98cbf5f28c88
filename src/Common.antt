-- ===== src/Common.antt =====
-- The parts of libs/Common that the components run on.
pub mod Timer
