-- ===== src/Informers.antt =====
-- pkg/generated/informers: the factory that shares one informer for each type and runs each once.
pub mod Factory
pub mod Policy
