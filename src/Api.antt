-- ===== src/Api.antt =====
-- The data that the components share: the repository's API types (pkg/apis, pkg/common), and the
-- Kubernetes objects and interfaces with the fields and methods that the code uses.
pub mod Kubernetes
pub mod Labels
pub mod Scheduling
pub mod Framework
