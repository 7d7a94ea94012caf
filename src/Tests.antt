-- ===== src/Tests.antt =====
-- Concrete inputs: what the definitions compute, and the theorems applied to them.
pub mod Partition
pub mod Partitioning
pub mod PartitioningEdges
pub mod Features
pub mod Processes
pub mod Gathering
pub mod DistSampling
pub mod Messages
pub mod Epochs
pub mod Loop
pub mod Saving
pub mod Types
pub mod Sampling
