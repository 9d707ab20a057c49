-- ===== src/Tests.antt =====
-- Concrete runs, and each theorem at a concrete input.
mod Samples
mod Topology
mod Strategy
mod Scores
mod Policy
mod Rollout
mod Informers
mod Client
mod Version
mod Copies
mod Lister
mod Parallelism
mod Rounds
mod Clusters
