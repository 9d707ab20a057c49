-- ===== src/Commands.antt =====
-- cmd: the commands of the repository.
pub mod Version
pub mod Descheduler
