-- ===== src/Utils.antt =====
-- graphlearn_torch/python/utils/: helpers that the other packages share.
pub mod Common
pub mod Tensor
