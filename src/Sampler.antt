-- ===== src/Sampler.antt =====
-- graphlearn_torch/python/sampler/: sampling the neighborhoods of nodes and links.
pub mod Base
pub mod Hops
pub mod Inducer
pub mod Neighbor
pub mod Links
