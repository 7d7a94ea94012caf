-- ===== src/Partition/Run/Load.antt =====
-- `load_partition` of graphlearn_torch/python/partition/base.py.
use graphlearn_for_pytorch.Prelude.{
  ℕ, Option, none, some, List, [], ◌∷◌, ltb, ◌>>=◌, ◌>>◌, assert, Dict, Eq, insert, string_keys,
  triple_keys,
}
use graphlearn_for_pytorch.Typing.{
  NodeType, EdgeType, as_str, GraphPartitionData, FeaturePartitionData, PartitionBook,
}
use graphlearn_for_pytorch.Partition.Base.{PerType, homo, hetero}
use graphlearn_for_pytorch.Partition.Files.{
  part, name, Meta, meta_file, Files, load_ids, exists, pt, load_graph_partition_data,
  load_feature_partition_data,
}

-- A missing graph directory leaves `None` in the graph, which is kept.
pub record Loaded (Row : Type 0) : Type 0 where
  pub num_partitions : ℕ
  pub partition_idx : ℕ
  pub graph : PerType EdgeType (Option GraphPartitionData)
  pub node_feat : Option (PerType NodeType (FeaturePartitionData Row))
  pub edge_feat : Option (PerType EdgeType (FeaturePartitionData Row))
  pub node_pb : PerType NodeType PartitionBook
  pub edge_pb : PerType EdgeType PartitionBook

module _ {K V : Type 0} ⦃e : Eq K⦄ where
  -- `dict[type] = load(type)` for every type; what is loaded may be left out.
  unfoldable pub load_dict : (K → Option (Option V)) → List K → Dict K V → Option (Dict K V)
  load_dict load [] dict = some dict
  load_dict load (type ∷ types) dict = do
    value ← load type
    load_dict load types (elim value [ none ↦ dict | some v ↦ insert dict type v ])

abbrev kept : {A : Type 0} → Option A → Option (Option A)
kept none = none
kept (some a) = some (some a)

abbrev none_if_empty : {K V : Type 0} → Dict K V → Option (PerType K V)
none_if_empty [] = none
none_if_empty (kv ∷ d) = some (hetero (kv ∷ d))

abbrev pub homo_if_there : {K V : Type 0} → Option V → Option (PerType K V)
homo_if_there none = none
homo_if_there (some v) = some (homo v)

module _ {Row : Type 0} where
  abbrev load_meta : Files Row → Option Meta
  load_meta files = elim (files (name "META" ∷ [])) [
    | none ↦ none
    | some entry ↦ elim entry [ meta_file meta ↦ some meta | _ ↦ none ]
  ]

  unfoldable pub load_homo : Files Row → ℕ → ℕ → Option (Loaded Row)
  unfolding load_graph_partition_data load_feature_partition_data
  load_homo files num_partitions idx = do
    graph ← load_graph_partition_data files (part idx ∷ name "graph" ∷ [])
    node_feat ← load_feature_partition_data files (part idx ∷ name "node_feat" ∷ [])
    edge_feat ← load_feature_partition_data files (part idx ∷ name "edge_feat" ∷ [])
    node_pb ← load_ids files (name (pt "node_pb") ∷ [])
    edge_pb ← load_ids files (name (pt "edge_pb") ∷ [])
    some (record {
      num_partitions = num_partitions;
      partition_idx = idx;
      graph = homo graph;
      node_feat = homo_if_there node_feat;
      edge_feat = homo_if_there edge_feat;
      node_pb = homo node_pb;
      edge_pb = homo edge_pb;
    })

  unfoldable pub load_hetero :
      Files Row → ℕ → ℕ → List NodeType → List EdgeType → Option (Loaded Row)
  unfolding load_graph_partition_data load_feature_partition_data load_dict
  load_hetero files num_partitions idx node_types edge_types = do
    graph_dict ←
        load_dict
          (λ etype.
            kept (
              load_graph_partition_data files (part idx ∷ name "graph" ∷ name (as_str etype) ∷ [])))
          edge_types []
    node_feat_dict ←
        load_dict
          (λ ntype.
            load_feature_partition_data files (part idx ∷ name "node_feat" ∷ name ntype ∷ []))
          node_types []
    edge_feat_dict ←
        load_dict
          (λ etype.
            load_feature_partition_data files
              (part idx ∷ name "edge_feat" ∷ name (as_str etype) ∷ []))
          edge_types []
    node_pb_dict ←
        load_dict (λ ntype. kept (load_ids files (name "node_pb" ∷ name (pt ntype) ∷ [])))
          node_types []
    edge_pb_dict ←
        load_dict (λ etype. kept (load_ids files (name "edge_pb" ∷ name (pt (as_str etype)) ∷ [])))
          edge_types []
    some (record {
      num_partitions = num_partitions;
      partition_idx = idx;
      graph = hetero graph_dict;
      node_feat = none_if_empty node_feat_dict;
      edge_feat = none_if_empty edge_feat_dict;
      node_pb = hetero node_pb_dict;
      edge_pb = hetero edge_pb_dict;
    })

  unfoldable pub load_partition : Files Row → ℕ → Option (Loaded Row)
  unfolding load_homo load_hetero
  load_partition files partition_idx = do
    meta ← load_meta files
    assert (ltb partition_idx meta.num_parts)
    assert (exists files (part partition_idx ∷ []))
    elim meta.types [
      | none ↦ load_homo files meta.num_parts partition_idx
      | some types ↦ load_hetero files meta.num_parts partition_idx types.0 types.1
    ]
