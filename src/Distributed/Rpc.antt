-- ===== src/Distributed/Rpc.antt =====
-- graphlearn_torch/python/distributed/rpc.py: naming workers, gathering and routing requests.
pub mod Gather
pub mod Names
pub mod Register
pub mod Router
pub mod Sync
