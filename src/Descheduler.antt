-- ===== src/Descheduler.antt =====
-- The descheduler: pkg/descheduler.
pub mod Strategy
pub mod Rounds
