-- ===== src/Topology.antt =====
-- pkg/topologyscheduling/topology_scheduling.go.
pub mod Counters
pub mod State
pub mod PreFilter
pub mod Checks
pub mod Score
pub mod Nodes
pub mod Plugin
pub mod Rollout
pub mod Startup
