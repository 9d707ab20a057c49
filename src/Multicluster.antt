-- ===== src/Multicluster.antt =====
-- pkg/multicluster: a virtual node stands for a cluster, and a scheduler of that cluster decides.
pub mod Plugin
pub mod Config
pub mod Startup
