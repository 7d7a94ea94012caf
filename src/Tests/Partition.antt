-- ===== src/Tests/Partition.antt =====
-- A graph of four nodes and five edges in two partitions, cut into chunks of two edges.
use graphlearn_for_pytorch.Prelude.{
  ℕ, ◌<◌, ◌≡◌, ◌↔◌, refl, true, none, some, List, [], ◌∷◌, map, arith, length, get_elem?, range,
}
use graphlearn_for_pytorch.Torch.{contains}
use graphlearn_for_pytorch.Torch.Concrete.{concrete}
use graphlearn_for_pytorch.Typing.{GraphPartitionData}
use graphlearn_for_pytorch.Partition.Base.{PartitionerBase, homo, by_dst, partition_graph}
use graphlearn_for_pytorch.Partition.Chunks.{part_of}
use graphlearn_for_pytorch.Partition.Topology.{
  partition_graph-eq-select, partition_graph_complete, partition_graph-no_edges,
}

abbrev rows : List ℕ
rows = 0 ∷ 1 ∷ 2 ∷ 3 ∷ 0 ∷ []

abbrev cols : List ℕ
cols = 1 ∷ 2 ∷ 3 ∷ 0 ∷ 2 ∷ []

abbrev book : List ℕ
book = 0 ∷ 1 ∷ 1 ∷ 0 ∷ []

abbrev sample : PartitionerBase ℕ
sample = record {
  num_parts = 2;
  num_nodes = homo 4;
  edge_index = homo (rows, cols);
  node_feat = none;
  edge_feat = none;
  edge_assign_strategy = by_dst;
  chunk_size = 2;
}

abbrev parts : List ℕ
parts = 1 ∷ 1 ∷ 0 ∷ 0 ∷ 1 ∷ []

abbrev graph_list : List GraphPartitionData
graph_list =
    record { edge_index = (2 ∷ 3 ∷ [], 3 ∷ 0 ∷ []); eids = 2 ∷ 3 ∷ [] }
    ∷ record { edge_index = (0 ∷ 1 ∷ 0 ∷ [], 1 ∷ 2 ∷ 2 ∷ []); eids = 0 ∷ 1 ∷ 4 ∷ [] }
    ∷ []

sample_run : partition_graph concrete sample (homo book) none ≡ some (graph_list, parts)
unfolding partition_graph concrete
sample_run = refl

partition_graph-eq-select_example :
    partition_graph concrete sample (homo book) none
    ≡ some (map (part_of rows cols (range 5) parts) (range 2), parts)
partition_graph-eq-select_example =
    partition_graph-eq-select concrete sample (homo book) none rows cols book parts refl refl
      (omega arith) (omega arith) refl refl (omega arith)

partition_graph_complete_example :
    (length graph_list ≡ 2)
    × ((pidx e : ℕ) (part : GraphPartitionData)
        → get_elem? graph_list pidx ≡ some part
        → e < 5
        → (contains part.eids e ≡ true) ↔ (get_elem? parts e ≡ some pidx))
    × ((pidx k e : ℕ) (part : GraphPartitionData)
        → get_elem? graph_list pidx ≡ some part
        → get_elem? part.eids k ≡ some e
        → (get_elem? part.edge_index.0 k ≡ get_elem? rows e)
          × (get_elem? part.edge_index.1 k ≡ get_elem? cols e))
    × ((e v : ℕ) → get_elem? cols e ≡ some v → get_elem? parts e ≡ get_elem? book v)
partition_graph_complete_example =
    partition_graph_complete concrete sample (homo book) none rows cols book parts refl refl
      (omega arith) (omega arith) refl refl (omega arith) graph_list parts sample_run

abbrev empty_graph : PartitionerBase ℕ
empty_graph = record sample { edge_index = homo ([], []) }

partition_graph-no_edges_example : partition_graph concrete empty_graph (homo book) none ≡ none
partition_graph-no_edges_example =
    partition_graph-no_edges concrete empty_graph (homo book) none [] refl (omega arith)
