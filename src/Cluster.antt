-- ===== src/Cluster.antt =====
-- src/cluster: GPUs, nodes and the topology.
pub mod Gpu
pub mod Node
pub mod Topology
pub mod Offers
pub mod Idle
pub mod Busy
pub mod Earliest
mod Tests
