-- ===== src/Distributed/Feature.antt =====
-- `DistFeature` of graphlearn_torch/python/distributed/dist_feature.py for one feature type: a
-- lookup is split by the partition book, answered by the partitions' workers and stitched.
-- A remote request is the worker's `local_get`; futures are their results, since `async_get` waits
-- for all of them before it stitches.
pub mod Lookup
pub mod Stitched
use graphlearn_for_pytorch.Prelude.{
  ℕ, zero, suc, ◌<◌, Bool, Option, none, some, List, [], ◌∷◌, map, ◌==◌, if◌then◌else◌, length,
  replicate, range, ◌>>=◌, get_elem?,
}
use graphlearn_for_pytorch.Torch.{Torch}
use graphlearn_for_pytorch.Typing.{PartitionBook}
use graphlearn_for_pytorch.Data.Feature.{Feature, cpu_get}

pub record DistFeature (Row : Type 0) : Type 0 where
  pub num_partitions : ℕ
  pub partition_idx : ℕ
  pub local_feature : Feature Row
  pub feature_pb : PartitionBook

-- Rows, and the positions in the request that they answer.
abbrev pub PartialFeature : Type 0 → Type 0
PartialFeature Row = List Row × List ℕ

module _ (torch : Torch) where
  -- The ids of one partition and their positions: the two `masked_select` calls.
  unfoldable pub select_partition : List ℕ → List ℕ → ℕ → Option (List ℕ × List ℕ)
  select_partition ids partition_ids pidx = do
    let mask = map (λ q. q == pidx) partition_ids
    selected ← torch.masked_select ids mask
    index ← torch.masked_select (torch.arange (length ids)) mask
    some (selected, index)

module _ (torch : Torch) {Row : Type 0} where
  unfoldable pub local_get : DistFeature Row → List ℕ → Option (List Row)
  local_get self ids = cpu_get torch self.local_feature ids

  -- `feat[local_ids]` is `cpu_get` for a feature store without a GPU.
  unfoldable pub local_selecting_get : DistFeature Row → List ℕ → Option (PartialFeature Row)
  local_selecting_get self ids = do
    partition_ids ← torch.index self.feature_pb ids
    (local_ids, local_index) ← select_partition torch ids partition_ids self.partition_idx
    rows ← cpu_get torch self.local_feature local_ids
    some (rows, local_index)

  -- `if remote_ids.shape[0] > 0`: one request, and then the later partitions.
  unfoldable pub request_part :
      (ℕ → List ℕ → Option (List Row))
      → ℕ
      → List ℕ
      → List ℕ
      → Option (List (PartialFeature Row))
      → Option (List (PartialFeature Row))
  request_part request pidx remote_ids index later =
      if length remote_ids == 0
      then later
      else (do rows ← request pidx remote_ids; rest ← later; some ((rows, index) ∷ rest))

  -- The loop over the partitions. `request pidx ids` is the answer of a worker of `pidx`.
  unfoldable pub remote_loop :
      (ℕ → List ℕ → Option (List Row))
      → ℕ
      → List ℕ
      → List ℕ
      → List ℕ
      → Option (List (PartialFeature Row))
  remote_loop request self_idx ids partition_ids [] = some []
  remote_loop request self_idx ids partition_ids (pidx ∷ pidxs) =
      let later = remote_loop request self_idx ids partition_ids pidxs in
      if pidx == self_idx then later else (do
        (remote_ids, index) ← select_partition torch ids partition_ids pidx
        request_part request pidx remote_ids index later)

  unfoldable pub remote_selecting_get :
      (ℕ → List ℕ → Option (List Row))
      → DistFeature Row
      → List ℕ
      → Option (List (PartialFeature Row))
  remote_selecting_get request self ids = do
    partition_ids ← torch.index self.feature_pb ids
    remote_loop request self.partition_idx ids partition_ids (range self.num_partitions)

  unfoldable pub stitch_remotes : List Row → List (PartialFeature Row) → Option (List Row)
  stitch_remotes feat [] = some feat
  stitch_remotes feat ((rows, index) ∷ remotes) = do
    feat' ← torch.index_put feat index rows
    stitch_remotes feat' remotes

  -- `zero_row` is a row of the zeros that the result is filled with at first.
  unfoldable pub stitch :
      Row → List ℕ → PartialFeature Row → List (PartialFeature Row) → Option (List Row)
  unfolding stitch_remotes
  stitch zero_row ids (rows, index) remotes = do
    feat ← torch.index_put (replicate (length ids) zero_row) index rows
    stitch_remotes feat remotes

  unfoldable pub async_get :
      (ℕ → List ℕ → Option (List Row)) → Row → DistFeature Row → List ℕ → Option (List Row)
  async_get request zero_row self ids = do
    remote_feature_list ← remote_selecting_get request self ids
    local_feature ← local_selecting_get self ids
    stitch zero_row ids local_feature remote_feature_list
