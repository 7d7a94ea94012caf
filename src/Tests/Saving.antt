-- ===== src/Tests/Saving.antt =====
-- A graph of four nodes saved in two parts, with features and a cache, and its first part loaded.
use graphlearn_for_pytorch.Torch.{contains}
use graphlearn_for_pytorch.Partition.Random.{random_partition_node, random_partition_node_splits}
use graphlearn_for_pytorch.Prelude.{
  ℕ, zero, suc, ◌<◌, ◌↔◌, true, length, get_elem?, ◌≡◌, refl, Option, none, some, List, [], ◌∷◌,
  arith,
}
use graphlearn_for_pytorch.Torch.Concrete.{concrete}
use graphlearn_for_pytorch.Typing.{GraphPartitionData, FeaturePartitionData}
use graphlearn_for_pytorch.Partition.Base.{PartitionerBase, homo, by_dst, partition_graph}
use graphlearn_for_pytorch.Partition.Files.{Files}
use graphlearn_for_pytorch.Partition.Run.{
  NodePartitioner, node_feat_part, partition_node_feat, partition_edge_feat, partition,
}
use graphlearn_for_pytorch.Partition.Run.Load.{load_partition}
use graphlearn_for_pytorch.Partition.Run.RoundTrip.{no_files, partition-load}

abbrev book : List ℕ
book = 0 ∷ 1 ∷ 1 ∷ 0 ∷ []

abbrev with_features : PartitionerBase ℕ
with_features = record {
  num_parts = 2;
  num_nodes = homo 4;
  edge_index = homo (0 ∷ 1 ∷ 2 ∷ 3 ∷ 0 ∷ [], 1 ∷ 2 ∷ 3 ∷ 0 ∷ 2 ∷ []);
  node_feat = some (homo (10 ∷ 11 ∷ 12 ∷ 13 ∷ []));
  edge_feat = none;
  edge_assign_strategy = by_dst;
  chunk_size = 2;
}

abbrev node_ids : List (List ℕ)
node_ids = (0 ∷ 3 ∷ []) ∷ (1 ∷ 2 ∷ []) ∷ []

abbrev halves : NodePartitioner
halves = record {
  partition_node = λ ntype. some (node_ids, book);
  cache_node = λ ntype. some (some (2 ∷ []) ∷ none ∷ []);
}

abbrev first_graph : GraphPartitionData
first_graph = record { edge_index = (2 ∷ 3 ∷ [], 3 ∷ 0 ∷ []); eids = 2 ∷ 3 ∷ [] }

abbrev graphs : List GraphPartitionData
graphs =
    first_graph
    ∷ record { edge_index = (0 ∷ 1 ∷ 0 ∷ [], 1 ∷ 2 ∷ 2 ∷ []); eids = 0 ∷ 1 ∷ 4 ∷ [] }
    ∷ []

abbrev first_feature : FeaturePartitionData ℕ
first_feature = record {
  feats = 10 ∷ 13 ∷ [];
  ids = 0 ∷ 3 ∷ [];
  cache_feats = some (12 ∷ []);
  cache_ids = some (2 ∷ []);
}

abbrev node_features : List (Option (FeaturePartitionData ℕ))
node_features =
    some first_feature
    ∷ some (record { feats = 11 ∷ 12 ∷ []; ids = 1 ∷ 2 ∷ []; cache_feats = none; cache_ids = none })
    ∷ []

abbrev edge_features : List (Option (FeaturePartitionData ℕ))
edge_features = none ∷ none ∷ []

graphs_run :
    partition_graph concrete with_features (homo book) none ≡ some (graphs, 1 ∷ 1 ∷ 0 ∷ 0 ∷ 1 ∷ [])
unfolding partition_graph concrete
graphs_run = refl

features_run : partition_node_feat concrete with_features halves node_ids none ≡ some node_features
unfolding partition_node_feat node_feat_part concrete
features_run = refl

edge_features_run : partition_edge_feat concrete with_features graphs none ≡ some edge_features
unfolding partition_edge_feat
edge_features_run = refl

partition-load_example :
    (files : Files ℕ) × (partition concrete with_features halves no_files ≡ some files)
    × (load_partition files 0
        ≡ some (record {
          num_partitions = 2;
          partition_idx = 0;
          graph = homo (some first_graph);
          node_feat = some (homo first_feature);
          edge_feat = none;
          node_pb = homo book;
          edge_pb = homo (1 ∷ 1 ∷ 0 ∷ 0 ∷ 1 ∷ []);
        }))
partition-load_example =
    partition-load concrete with_features halves 4 node_ids book (1 ∷ 1 ∷ 0 ∷ 0 ∷ 1 ∷ [])
      node_features edge_features graphs 0 first_graph refl refl features_run graphs_run
      edge_features_run refl (omega arith) refl

abbrev backwards : ℕ → List ℕ
backwards zero = []
backwards (suc n) = n ∷ backwards n

random_partition_node_splits_example :
    (lists : List (List ℕ)) × (found : List ℕ) × (random_partition_node concrete backwards
        with_features none
      ≡ some (lists, found))
    × (length lists ≡ 2)
    × (length found ≡ 4)
    × ((v : ℕ) → v < 4 → (p : ℕ) × (get_elem? found v ≡ some p) × (p < 2))
    × ((p v : ℕ) (ids : List ℕ)
        → get_elem? lists p ≡ some ids
        → v < 4
        → (contains ids v ≡ true) ↔ (get_elem? found v ≡ some p))
random_partition_node_splits_example =
    random_partition_node_splits concrete backwards with_features none 4 refl refl
      (omega arith, (omega arith, (omega arith, (omega arith, tt)))) (omega arith)
