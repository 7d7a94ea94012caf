-- ===== src/Distributed/Partitioner/Methods.antt =====
-- `DistRandomPartitioner` of graphlearn_torch/python/distributed/dist_random_partitioner.py: the
-- methods of one worker, as programs that exchange their chunks with the other workers.
use graphlearn_for_pytorch.Prelude.{
  ℕ, zero, suc, ◌+◌, ◌*◌, ◌/◌, ◌%◌, min, ◌==◌, Bool, true, false, Option, none, some, List, map,
  length, ◌>>=◌, ◌>>◌, assert, traverse, string_keys, triple_keys,
}
use graphlearn_for_pytorch.Torch.{Torch}
use graphlearn_for_pytorch.Typing.{
  NodeType, EdgeType, PartitionBook, GraphPartitionData, FeaturePartitionData,
}
use graphlearn_for_pytorch.Utils.Common.{slice_of, tensor_select}
use graphlearn_for_pytorch.Partition.Base.{
  PerType, Strategy, EdgeIndex, of_type, target_type, target_indices,
}
use graphlearn_for_pytorch.Distributed.Context.{DistContext, set_worker_context}
use graphlearn_for_pytorch.Distributed.Partitioner.Chunked.{PartitionFn, partition_by_chunk}
use graphlearn_for_pytorch.Distributed.Partitioner.Exchange.{
  Value, edge_columns, feature_columns, value_select, Exchange, returns, collective, or_raise,
  and_then,
}

pub record DistRandomPartitioner (Row : Type 0) : Type 0 where
  pub num_parts : ℕ
  pub current_partition_idx : ℕ
  pub num_nodes : PerType NodeType ℕ
  pub edge_index : PerType EdgeType EdgeIndex
  pub edge_ids : PerType EdgeType (List ℕ)
  pub node_feat : Option (PerType NodeType (List Row))
  -- read only where there are features: `__init__` asserts that their ids are there
  pub node_feat_ids : PerType NodeType (List ℕ)
  pub edge_feat : Option (PerType EdgeType (List Row))
  pub edge_feat_ids : PerType EdgeType (List ℕ)
  -- the edges of all the workers
  pub num_edges : PerType EdgeType ℕ
  -- for a heterogeneous graph
  pub node_types : List NodeType
  pub edge_types : List EdgeType
  pub edge_assign_strategy : Strategy
  pub chunk_size : ℕ

abbrev same_if_given : Option ℕ → ℕ → Option (Unit {0})
same_if_given none actual = some tt
same_if_given (some given) actual = assert (given == actual)

-- The context that `__init__` works in: the one that is set, or a new one of a worker group.
unfoldable pub context_of : Option DistContext → Option ℕ → Option ℕ → Option DistContext
context_of (some context) num_parts current_partition_idx =
    same_if_given num_parts context.world_size
    >> same_if_given current_partition_idx context.rank
    >> some context
context_of none num_parts current_partition_idx = do
  world_size ← num_parts
  rank ← current_partition_idx
  set_worker_context world_size rank (some "distributed_random_partitoner")

abbrev pub divide : ℕ → ℕ → Option ℕ
divide m zero = none
divide m (suc d) = some (m / suc d)

module _ (torch : Torch) {Row : Type 0} (self : DistRandomPartitioner Row) where
  -- `_partition_by_chunk`, with the chunks of this worker.
  abbrev pub exchange_chunks :
      Option (Value Row)
      → List ℕ
      → PartitionFn
      → ℕ
      → Bool
      → Exchange Row (List (Value Row) × Option PartitionBook)
  exchange_chunks val val_idx partition_fn total_val_size generate_pb =
      and_then
        (or_raise (
          partition_by_chunk torch (value_select torch) self.num_parts self.chunk_size val val_idx
            partition_fn))
        (λ chunks.
          collective chunks total_val_size generate_pb λ values book. returns (values, book))

  -- `_node_pfn`. The random order of a chunk may differ from that of any other.
  unfoldable pub node_pfn : (ℕ → ℕ → List ℕ) → PartitionFn
  node_pfn randperm n_ids start end =
      let partition_idx = map (λ id. id % self.num_parts) n_ids in
      let rand_order = randperm start (length n_ids) in torch.index partition_idx rand_order

  unfoldable pub local_node_ids : ℕ → Option (List ℕ)
  local_node_ids node_num = do
    per_node_num ← divide node_num self.num_parts
    let local_node_start = per_node_num * self.current_partition_idx
    let local_node_end = min node_num (per_node_num * (self.current_partition_idx + 1))
    some (torch.arange_between local_node_start local_node_end)

  unfoldable pub partition_node :
      (ℕ → ℕ → List ℕ) → Option NodeType → Exchange Row (Option PartitionBook)
  unfolding node_pfn local_node_ids
  partition_node randperm ntype = and_then (or_raise (of_type self.num_nodes ntype)) λ node_num.
      and_then (or_raise (local_node_ids node_num)) λ ids.
        and_then (exchange_chunks none ids (node_pfn randperm) node_num true)
          λ result. returns result.1

  -- `_edge_pfn`
  unfoldable pub edge_pfn : PartitionBook → List ℕ → PartitionFn
  edge_pfn target_node_pb targets ids start end = do
    chunk_target_indices ← tensor_select torch targets (slice_of start end)
    torch.index target_node_pb chunk_target_indices

  -- The columns of a value; a tuple with fewer columns raises.
  abbrev pub columns_of : Value Row → Option (List ℕ × (List ℕ × List ℕ))
  columns_of (edge_columns columns) = some columns
  columns_of (feature_columns columns) = none

  abbrev pub features_of : Value Row → Option (List Row × List ℕ)
  features_of (edge_columns columns) = none
  features_of (feature_columns columns) = some columns

  unfoldable pub cat_graph : List (Value Row) → Option GraphPartitionData
  cat_graph res_list = do
    columns ← traverse columns_of res_list
    rows ← torch.cat (map (λ r. r.0) columns)
    cols ← torch.cat (map (λ r. r.1.0) columns)
    eids ← torch.cat (map (λ r. r.1.1) columns)
    some (record { edge_index = (rows, cols); eids = eids })

  unfoldable pub partition_graph :
      PerType NodeType PartitionBook
      → Option EdgeType
      → Exchange Row (GraphPartitionData × Option PartitionBook)
  unfolding edge_pfn cat_graph
  partition_graph node_pbs etype = and_then (or_raise (of_type self.edge_index etype)) λ edge_index.
      and_then (or_raise (of_type self.edge_ids etype)) λ eids.
        and_then (or_raise (of_type self.num_edges etype)) λ edge_num.
          and_then (or_raise (of_type node_pbs (target_type self.edge_assign_strategy etype)))
            λ target_node_pb.
              and_then
                (exchange_chunks (some (edge_columns (edge_index.0, (edge_index.1, eids)))) eids
                  (edge_pfn target_node_pb (target_indices self.edge_assign_strategy edge_index))
                  edge_num true)
                λ result.
                  and_then (or_raise (cat_graph result.0))
                    λ current_graph_part. returns (current_graph_part, result.1)

  -- The partition functions of features: the book at the ids.
  abbrev pub book_pfn : PartitionBook → PartitionFn
  book_pfn book ids start end = torch.index book ids

  unfoldable pub cat_features : List (Value Row) → Option (FeaturePartitionData Row)
  cat_features res_list = do
    columns ← traverse features_of res_list
    feats ← torch.cat (map (λ r. r.0) columns)
    ids ← torch.cat (map (λ r. r.1) columns)
    some (record { feats = feats; ids = ids; cache_feats = none; cache_ids = none })

  -- The common rest of `_partition_node_feat` and `_partition_edge_feat`.
  unfoldable pub exchange_features :
      List Row → List ℕ → PartitionBook → ℕ → Exchange Row (Option (FeaturePartitionData Row))
  unfolding cat_features
  exchange_features feat feat_ids book num =
      and_then
        (exchange_chunks (some (feature_columns (feat, feat_ids))) feat_ids (book_pfn book) num
          false)
        λ result. and_then (or_raise (cat_features result.0)) λ feature. returns (some feature)

  unfoldable pub partition_node_feat :
      PartitionBook → Option NodeType → Exchange Row (Option (FeaturePartitionData Row))
  unfolding exchange_features
  partition_node_feat node_pb ntype = elim self.node_feat [
    | none ↦ returns none
    | some feats ↦
        (and_then (or_raise (of_type self.num_nodes ntype)) λ node_num.
          and_then (or_raise (of_type feats ntype)) λ node_feat.
            and_then (or_raise (of_type self.node_feat_ids ntype))
              λ node_feat_ids. exchange_features node_feat node_feat_ids node_pb node_num)
  ]

  unfoldable pub partition_edge_feat :
      PartitionBook → Option EdgeType → Exchange Row (Option (FeaturePartitionData Row))
  unfolding exchange_features
  partition_edge_feat edge_pb etype = elim self.edge_feat [
    | none ↦ returns none
    | some feats ↦
        (and_then (or_raise (of_type self.num_edges etype)) λ edge_num.
          and_then (or_raise (of_type feats etype)) λ edge_feat.
            and_then (or_raise (of_type self.edge_feat_ids etype))
              λ edge_feat_ids. exchange_features edge_feat edge_feat_ids edge_pb edge_num)
  ]
