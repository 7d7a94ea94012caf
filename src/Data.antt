-- ===== src/Data.antt =====
-- graphlearn_torch/python/data/: features and graph topology in one process.
pub mod Feature
