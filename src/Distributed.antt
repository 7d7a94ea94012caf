-- ===== src/Distributed.antt =====
-- graphlearn_torch/python/distributed/: features, partitions and workers on several machines.
pub mod Feature
pub mod Context
pub mod Loader
pub mod Message
pub mod Producer
pub mod Rpc
pub mod Sampler
pub mod EventLoop
pub mod Partitioner
