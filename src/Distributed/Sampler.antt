-- ===== src/Distributed/Sampler.antt =====
-- `DistNeighborSampler._sample_one_hop` of
-- graphlearn_torch/python/distributed/dist_neighbor_sampler.py: the seeds are split by the partition
-- that holds them, sampled there and stitched. What a task awaits is read as its result.
use graphlearn_for_pytorch.Prelude.{
  ℕ, ◌+◌, ◌-◌, ◌%◌, Bool, true, false, Option, none, some, List, [], ◌∷◌, ◌++◌, map, ◌==◌, leb,
  if◌then◌else◌, length, replicate, range, ◌>>=◌, ◌>>◌, assert, take, drop, get_elem?,
}
use graphlearn_for_pytorch.Torch.{Torch}
use graphlearn_for_pytorch.Typing.{PartitionBook}
use graphlearn_for_pytorch.Sampler.Base.{EdgeId, edge, NeighborOutput}
use graphlearn_for_pytorch.Distributed.Feature.{select_partition}
pub mod Slots
pub mod Offsets
pub mod Stitched

pub record DistNeighborSampler : Type 0 where
  pub num_partitions : ℕ
  pub partition_idx : ℕ
  pub node_pb : PartitionBook
  pub with_edge : Bool

pub record PartialNeighborOutput : Type 0 where
  pub index : List ℕ
  pub output : NeighborOutput

-- `torch::cumsum(nums, 0)`, on top of `total`.
abbrev pub cumsum : ℕ → List ℕ → List ℕ
cumsum total [] = []
cumsum total (num ∷ nums) = (total + num) ∷ cumsum (total + num) nums

-- `memcpy(dst + to, src + from, num)`. Nothing where it reads or writes out of bounds.
unfoldable pub memcpy : {A : Type 0} → List A → ℕ → List A → ℕ → ℕ → Option (List A)
memcpy dst to src from num = do
  assert (leb (to + num) (length dst))
  assert (leb (from + num) (length src))
  some (take to dst ++ (take num (drop from src) ++ drop (to + num) dst))

-- The copy of the items of the id at `cur_id_idx`: they end before `local_end` among the items of the
-- partition, and before the offset of the id among all. Nothing where an offset is out of bounds.
unfoldable pub copy_id : {A : Type 0} → List ℕ → List A → ℕ → ℕ → ℕ → List A → Option (List A)
unfolding memcpy
copy_id offsets items cur_id_idx cur_nbr_num local_end out = do
  global_end ← get_elem? offsets cur_id_idx
  assert (leb cur_nbr_num global_end)
  memcpy out (global_end - cur_nbr_num) items (local_end - cur_nbr_num) cur_nbr_num

-- The loop over the ids of a partition, one after another: its threads write to different places.
-- Nothing where the arrays of the partition are too short.
unfoldable pub copy_ids :
    {A : Type 0} → List ℕ → List A → List ℕ → List ℕ → List ℕ → List A → Option (List A)
unfolding copy_id
copy_ids offsets items [] nums local_ends out = some out
copy_ids offsets items (idx ∷ idxs) [] local_ends out = none
copy_ids offsets items (idx ∷ idxs) (num ∷ nums) [] out = none
copy_ids offsets items (idx ∷ idxs) (num ∷ nums) (local_end ∷ local_ends) out = do
  copied ← if num == 0 then some out else copy_id offsets items idx num local_end out
  copy_ids offsets items idxs nums local_ends copied

-- The loop over the partitions, for the neighbors or for the edge ids of their outputs.
unfoldable pub copy_results :
    {A : Type 0}
    → (NeighborOutput → Option (List A))
    → List ℕ
    → List PartialNeighborOutput
    → List A
    → Option (List A)
unfolding copy_ids
copy_results items_of offsets [] out = some out
copy_results items_of offsets (result ∷ results) out = do
  items ← items_of result.output
  let nums = result.output.nbr_num
  copied ← copy_ids offsets items result.index nums (cumsum 0 nums) out
  copy_results items_of offsets results copied

module _ (torch : Torch) where
  -- `nbrs_num.index_copy(0, idx_list[i], nbrs_num_list[i])` for each partition.
  unfoldable pub copy_nums : List PartialNeighborOutput → List ℕ → Option (List ℕ)
  copy_nums [] nbrs_num = some nbrs_num
  copy_nums (result ∷ results) nbrs_num =
      torch.index_put nbrs_num result.index result.output.nbr_num >>= copy_nums results

  -- The edge ids, if there are any, from zeros.
  abbrev pub copy_eids :
      Bool → List ℕ → List PartialNeighborOutput → ℕ → Option (Option (List EdgeId))
  copy_eids false offsets results nbrs_count = some none
  copy_eids true offsets results nbrs_count =
      copy_results (λ out. out.edge_ids) offsets results (replicate nbrs_count (edge 0)) >>= λ eids.
      some (some eids)

  -- Nothing where there is no seed, and so no last offset.
  unfoldable pub cpu_stitch_sample_results :
      Bool → List ℕ → List PartialNeighborOutput → Option NeighborOutput
  unfolding copy_nums copy_results
  cpu_stitch_sample_results with_edge input_seeds results = do
    nbrs_num ← copy_nums results (torch.zeros (length input_seeds))
    let offsets = cumsum 0 nbrs_num
    nbrs_count ← get_elem? offsets (length input_seeds - 1)
    nbrs ← copy_results (λ out. some out.nbr) offsets results (torch.zeros nbrs_count)
    eids ← copy_eids with_edge offsets results nbrs_count
    some (record { nbr = nbrs; nbr_num = nbrs_num; edge_ids = eids })

  -- `_stitch_sample_results`: the lists of indices, neighbors, numbers and edge ids are those of the
  -- results, and there are edge ids if they are wanted.
  unfoldable pub stitch_sample_results :
      Bool → List ℕ → List PartialNeighborOutput → Option NeighborOutput
  unfolding cpu_stitch_sample_results
  stitch_sample_results with_edge input_seeds results =
      cpu_stitch_sample_results with_edge input_seeds results

  -- `local p_ids num` is what the own sampler returns, and `request pidx p_ids num` the answer
  -- of a worker of `pidx`.
  module _ (local : List ℕ → ℕ → Option NeighborOutput)
      (request : ℕ → List ℕ → ℕ → Option NeighborOutput) where
    -- The own result, or one from another partition, before those of the later partitions.
    abbrev pub add_result :
        Bool
        → PartialNeighborOutput
        → List PartialNeighborOutput × List PartialNeighborOutput
        → List PartialNeighborOutput × List PartialNeighborOutput
    add_result true result (own, remote) = (result ∷ own, remote)
    add_result false result (own, remote) = (own, result ∷ remote)

    abbrev pub ask : Bool → ℕ → List ℕ → ℕ → Option NeighborOutput
    ask true pidx p_ids num_nbr = local p_ids num_nbr
    ask false pidx p_ids num_nbr = request pidx p_ids num_nbr

    -- The loop over the partitions: the results of the own sampler, and those of the others.
    unfoldable pub partition_loop :
        ℕ
        → List ℕ
        → List ℕ
        → ℕ
        → List ℕ
        → Option (List PartialNeighborOutput × List PartialNeighborOutput)
    partition_loop me srcs partition_ids num_nbr [] = some ([], [])
    partition_loop me srcs partition_ids num_nbr (pidx ∷ pidxs) =
        let later = partition_loop me srcs partition_ids num_nbr pidxs in
        select_partition torch srcs partition_ids pidx >>= λ (p_ids, p_orders).
        if length p_ids == 0 then later else (do
          output ← ask (pidx == me) pidx p_ids num_nbr
          results ← later
          some (add_result (pidx == me) (record { index = p_orders; output = output }) results))

    -- `partition_results[0].output`, which raises where there is no result.
    abbrev pub first_output : List PartialNeighborOutput → Option NeighborOutput
    first_output [] = none
    first_output (result ∷ results) = some result.output

    abbrev pub complete :
        Bool
        → List ℕ
        → List PartialNeighborOutput × List PartialNeighborOutput
        → Option NeighborOutput
    complete with_edge srcs (own, []) = first_output own
    complete with_edge srcs (own, result ∷ remote) =
        stitch_sample_results with_edge srcs (own ++ result ∷ remote)

    abbrev pub visit : ℕ → ℕ → List ℕ
    visit me num_partitions = map (λ i. (me + i) % num_partitions) (range num_partitions)

    unfoldable pub dist_one_hop : DistNeighborSampler → List ℕ → ℕ → Option NeighborOutput
    unfolding partition_loop stitch_sample_results
    dist_one_hop self srcs num_nbr = do
      partition_ids ← torch.index self.node_pb srcs
      results ←
          partition_loop self.partition_idx srcs partition_ids num_nbr
            (visit self.partition_idx self.num_partitions)
      complete self.with_edge srcs results
