-- ===== src/Partition/Run.antt =====
-- `PartitionerBase.partition` and `load_partition` of graphlearn_torch/python/partition/base.py.
use graphlearn_for_pytorch.Prelude.{
  ℕ, zero, suc, Bool, true, false, ◌&&◌, Option, none, some, List, [], ◌∷◌, ◌++◌, map, ltb, ◌==◌,
  if◌then◌else◌, ◌>>=◌, ◌>>◌, assert, traverse, get_elem?, range, replicate, length, Dict, insert,
  lookup, string_keys, triple_keys,
}
use graphlearn_for_pytorch.Torch.{Torch}
use graphlearn_for_pytorch.Typing.{
  String, NodeType, EdgeType, as_str, GraphPartitionData, FeaturePartitionData, PartitionBook,
}
use graphlearn_for_pytorch.Partition.Base.{
  PartitionerBase, PerType, homo, hetero, get_node_feat, get_edge_feat, partition_graph,
}
use graphlearn_for_pytorch.Partition.Files.{
  part, name, FilePath, Meta, Entry, meta_file, Files, write, load_ids, exists, pt, save_pb,
  save_graph_partition, save_feature_partition, load_graph_partition_data,
  load_feature_partition_data,
}
pub mod Load
pub mod Features
pub mod Savers
pub mod RoundTrip

-- The two methods that a partitioner must define.
pub record NodePartitioner : Type 0 where
  pub partition_node : Option NodeType → Option (List (List ℕ) × PartitionBook)
  pub cache_node : Option NodeType → Option (List (Option (List ℕ)))

abbrev edge_name : Option EdgeType → Option String
edge_name none = none
edge_name (some etype) = some (as_str etype)

abbrev keys : {K V : Type 0} → PerType K V → List K
keys (homo v) = []
keys (hetero d) = map (λ kv. kv.0) d

module _ {Row : Type 0} where
  abbrev pub save_if_there :
      ℕ → Option (FeaturePartitionData Row) → String → Option String → Files Row → Files Row
  save_if_there pidx none group type files = files
  save_if_there pidx (some feature) group type files =
      save_feature_partition pidx feature group type files

  unfoldable pub save_node_feats :
      List (Option (FeaturePartitionData Row))
      → Option String
      → List ℕ
      → Files Row
      → Option (Files Row)
  unfolding save_feature_partition
  save_node_feats node_feat_list type [] files = some files
  save_node_feats node_feat_list type (pidx ∷ pidxs) files = do
    feature ← get_elem? node_feat_list pidx
    save_node_feats node_feat_list type pidxs (save_if_there pidx feature "node_feat" type files)

  unfoldable pub save_graphs :
      List GraphPartitionData
      → List (Option (FeaturePartitionData Row))
      → Option String
      → List ℕ
      → Files Row
      → Option (Files Row)
  unfolding save_graph_partition save_feature_partition
  save_graphs graph_list edge_feat_list type [] files = some files
  save_graphs graph_list edge_feat_list type (pidx ∷ pidxs) files = do
    graph ← get_elem? graph_list pidx
    feature ← get_elem? edge_feat_list pidx
    save_graphs graph_list edge_feat_list type pidxs
        (save_if_there pidx feature "edge_feat" type (save_graph_partition pidx graph type files))

module _ (torch : Torch) {Row : Type 0} where
  abbrev pub cached_rows : List Row → Option (List ℕ) → Option (Option (List Row))
  cached_rows node_feat none = some none
  cached_rows node_feat (some ids) = torch.index node_feat ids >>= λ rows. some (some rows)

  -- One round of the loop of `_partition_node_feat`.
  unfoldable pub node_feat_part :
      List Row
      → List (List ℕ)
      → List (Option (List ℕ))
      → ℕ
      → Option (Option (FeaturePartitionData Row))
  node_feat_part node_feat node_ids_list cache_node_ids_list pidx = do
    n_ids ← get_elem? node_ids_list pidx
    cache_n_ids ← get_elem? cache_node_ids_list pidx
    feats ← torch.index node_feat n_ids
    cache_feats ← cached_rows node_feat cache_n_ids
    some (
        some (record {
          feats = feats;
          ids = n_ids;
          cache_feats = cache_feats;
          cache_ids = cache_n_ids;
        }))

  unfoldable pub partition_node_feat :
      PartitionerBase Row
      → NodePartitioner
      → List (List ℕ)
      → Option NodeType
      → Option (List (Option (FeaturePartitionData Row)))
  partition_node_feat self node node_ids_list ntype = get_node_feat self ntype >>= λ node_feat.
      elim node_feat [
        | none ↦ some (map (λ pidx. none) (range self.num_parts))
        | some rows ↦ node.cache_node ntype >>= λ cache_node_ids_list.
            traverse (node_feat_part rows node_ids_list cache_node_ids_list) (range self.num_parts)
      ]

  unfoldable pub edge_feat_part :
      List Row → List GraphPartitionData → ℕ → Option (Option (FeaturePartitionData Row))
  edge_feat_part edge_feat graph_list pidx = do
    graph ← get_elem? graph_list pidx
    feats ← torch.index edge_feat graph.eids
    some (some (record { feats = feats; ids = graph.eids; cache_feats = none; cache_ids = none }))

  unfoldable pub partition_edge_feat :
      PartitionerBase Row
      → List GraphPartitionData
      → Option EdgeType
      → Option (List (Option (FeaturePartitionData Row)))
  partition_edge_feat self graph_list etype = get_edge_feat self etype >>= λ edge_feat.
      elim edge_feat [
        | none ↦ some (map (λ pidx. none) (range self.num_parts))
        | some rows ↦ traverse (edge_feat_part rows graph_list) (range self.num_parts)
      ]

  module _ (self : PartitionerBase Row) (node : NodePartitioner) where
    -- The nodes of one type, or of a homogeneous graph.
    unfoldable pub partition_nodes_of :
        Option NodeType → Files Row → Option (PartitionBook × Files Row)
    unfolding save_node_feats save_pb
    partition_nodes_of ntype files = do
      (node_ids_list, node_pb) ← node.partition_node ntype
      node_feat_list ← partition_node_feat self node node_ids_list ntype
      files' ← save_node_feats node_feat_list ntype (range self.num_parts) files
      some (node_pb, save_pb "node_pb" node_pb ntype files')

    unfoldable pub partition_edges_of :
        PerType NodeType PartitionBook → Option EdgeType → Files Row → Option (Files Row)
    unfolding save_graphs save_pb
    partition_edges_of node_pb etype files = do
      (graph_list, edge_pb) ← partition_graph torch self node_pb etype
      edge_feat_list ← partition_edge_feat self graph_list etype
      files' ← save_graphs graph_list edge_feat_list (edge_name etype) (range self.num_parts) files
      some (save_pb "edge_pb" edge_pb (edge_name etype) files')

    unfoldable pub all_node_types :
        List NodeType
        → Dict NodeType PartitionBook
        → Files Row
        → Option (Dict NodeType PartitionBook × Files Row)
    unfolding partition_nodes_of
    all_node_types [] node_pb_dict files = some (node_pb_dict, files)
    all_node_types (ntype ∷ ntypes) node_pb_dict files = do
      (node_pb, files') ← partition_nodes_of (some ntype) files
      all_node_types ntypes (insert node_pb_dict ntype node_pb) files'

    unfoldable pub all_edge_types :
        List EdgeType → Dict NodeType PartitionBook → Files Row → Option (Files Row)
    unfolding partition_edges_of
    all_edge_types [] node_pb_dict files = some files
    all_edge_types (etype ∷ etypes) node_pb_dict files =
        partition_edges_of (hetero node_pb_dict) (some etype) files
        >>= all_edge_types etypes node_pb_dict

    abbrev meta_of : Option (List NodeType × List EdgeType) → Entry Row
    meta_of types = meta_file (record { num_parts = self.num_parts; types = types })

    unfoldable pub partition : Files Row → Option (Files Row)
    unfolding all_node_types all_edge_types
    partition files = elim self.num_nodes [
      | homo n ↦ (do
        (node_pb, files') ← partition_nodes_of none files
        files'' ← partition_edges_of (homo node_pb) none files'
        some (write (name "META" ∷ []) (meta_of none) files''))
      | hetero d ↦ (do
        let node_types = map (λ kv. kv.0) d
        let edge_types = keys self.edge_index
        (node_pb_dict, files') ← all_node_types node_types [] files
        files'' ← all_edge_types edge_types node_pb_dict files'
        some (write (name "META" ∷ []) (meta_of (some (node_types, edge_types))) files''))
    ]
