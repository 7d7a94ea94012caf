-- ===== src/Partition.antt =====
-- graphlearn_torch/python/partition/: splitting a graph and its features into parts.
pub mod Base
pub mod Chunks
pub mod Collect
pub mod Edges
pub mod Topology
pub mod Cache
pub mod Files
pub mod Run
pub mod Random
