-- ===== src/Tests/PartitioningEdges.antt =====
-- Two workers that partition two edges together: each has the edge that goes to the other's part.
use graphlearn_for_pytorch.Prelude.{
  ℕ, zero, suc, ◌<◌, ◌≡◌, refl, none, some, Option, List, [], ◌∷◌, arith, get_elem?, some_inj, true,
}
use graphlearn_for_pytorch.Torch.{gather}
use graphlearn_for_pytorch.Torch.Concrete.{concrete}
use graphlearn_for_pytorch.Typing.{PartitionBook, GraphPartitionData}
use graphlearn_for_pytorch.Partition.Base.{EdgeIndex, homo, by_src, target_indices}
use graphlearn_for_pytorch.Distributed.Partitioner.{Manager}
use graphlearn_for_pytorch.Distributed.Partitioner.Exchange.{Runs}
use graphlearn_for_pytorch.Distributed.Partitioner.Methods.{DistRandomPartitioner, partition_graph}
use graphlearn_for_pytorch.Distributed.Partitioner.Nodes.{IsMember}
use graphlearn_for_pytorch.Distributed.Partitioner.EdgeChunks.{HasEdges}
use graphlearn_for_pytorch.Distributed.Partitioner.EdgeRound.{AreUnique}
use graphlearn_for_pytorch.Distributed.Partitioner.EdgeParts.{
  IsShare, partition_graph_shares, partition_graph-Runs,
}

abbrev columns : ℕ → EdgeIndex
columns zero = (0 ∷ [], 1 ∷ [])
columns (suc w) = (1 ∷ [], 0 ∷ [])

abbrev ids : ℕ → List ℕ
ids zero = 0 ∷ []
ids (suc w) = 1 ∷ []

abbrev parts : ℕ → List ℕ
parts zero = 1 ∷ []
parts (suc w) = 0 ∷ []

abbrev node_pb : PartitionBook
node_pb = 1 ∷ 0 ∷ []

abbrev worker : ℕ → DistRandomPartitioner ℕ
worker w = record {
  num_parts = 2;
  current_partition_idx = w;
  num_nodes = homo 2;
  edge_index = homo (columns w);
  edge_ids = homo (ids w);
  node_feat = none;
  node_feat_ids = homo [];
  edge_feat = none;
  edge_feat_ids = homo [];
  num_edges = homo 2;
  node_types = [];
  edge_types = [];
  edge_assign_strategy = by_src;
  chunk_size = 1;
}

abbrev manager : {V : Type 0} → ℕ → Manager V
manager w = record {
  num_parts = 2;
  cur_pidx = w;
  generate_pb = true;
  cur_part_val_list = [];
  partition_book = none;
}

worker-IsMember : (w : ℕ) → w < 2 → IsMember 2 w (worker w)
worker-IsMember w lt = record { parts = refl; rank = refl; chunked = omega arith }

worker-HasEdges :
    (w : ℕ) → w < 2 → HasEdges (columns w) (ids w) 2 node_pb (homo node_pb) none (worker w)
worker-HasEdges zero lt = record {
  has_columns = refl;
  has_ids = refl;
  has_total = refl;
  has_book = refl;
  same_cols = refl;
  same_ids = refl;
  in_book = (omega arith, tt);
}
worker-HasEdges (suc w) lt = record {
  has_columns = refl;
  has_ids = refl;
  has_total = refl;
  has_book = refl;
  same_cols = refl;
  same_ids = refl;
  in_book = (omega arith, tt);
}

read_parts :
    (w : ℕ)
    → w < 2
    → gather node_pb (target_indices (worker w).edge_assign_strategy (columns w)) ≡ some (parts w)
read_parts zero lt = refl
read_parts (suc w) lt = refl

parts_below : (w j p : ℕ) → w < 2 → get_elem? (parts w) j ≡ some p → p < 2
parts_below zero zero p lt e = omega (arith, some_inj e)
parts_below zero (suc j) p lt e = cc
parts_below (suc w) zero p lt e = omega (arith, some_inj e)
parts_below (suc w) (suc j) p lt e = cc

ids_below : (w j i : ℕ) → w < 2 → get_elem? (ids w) j ≡ some i → i < 2
ids_below zero zero i lt e = omega (arith, some_inj e)
ids_below zero (suc j) i lt e = cc
ids_below (suc w) zero i lt e = omega (arith, some_inj e)
ids_below (suc w) (suc j) i lt e = cc

ids-AreUnique : AreUnique 2 ids
ids-AreUnique zero zero zero zero i lt lt' e e' = (refl, refl)
ids-AreUnique zero zero (suc k) j i lt lt' e e' = cc
ids-AreUnique zero zero zero (suc j) i lt lt' e e' = cc
ids-AreUnique zero (suc v) zero zero i lt lt' e e' = absurd (omega (arith, some_inj e, some_inj e'))
ids-AreUnique zero (suc v) (suc k) j i lt lt' e e' = cc
ids-AreUnique zero (suc v) zero (suc j) i lt lt' e e' = cc
ids-AreUnique (suc w) zero zero zero i lt lt' e e' = absurd (omega (arith, some_inj e, some_inj e'))
ids-AreUnique (suc w) zero (suc k) j i lt lt' e e' = cc
ids-AreUnique (suc w) zero zero (suc j) i lt lt' e e' = cc
ids-AreUnique (suc w) (suc v) zero zero i lt lt' e e' = (omega (arith, lt, lt'), refl)
ids-AreUnique (suc w) (suc v) (suc k) j i lt lt' e e' = cc
ids-AreUnique (suc w) (suc v) zero (suc j) i lt lt' e e' = cc

abbrev run :
    (results : ℕ → GraphPartitionData × Option PartitionBook) × Runs concrete 2 results manager
      (λ w. partition_graph concrete (worker w) (homo node_pb) none)
run =
    partition_graph-Runs concrete 2 2 node_pb (homo node_pb) none worker columns ids parts manager
      (omega arith) worker-IsMember worker-HasEdges read_parts parts_below ids_below ids-AreUnique
      (0, omega arith, omega arith) (λ w lt. (refl, refl))

partition_graph_shares_example :
    (part : GraphPartitionData) × (book : PartitionBook) × (run.0 1 ≡ (part, some book))
    × IsShare 2 2 columns ids parts 1 part book
partition_graph_shares_example =
    partition_graph_shares concrete 2 2 node_pb (homo node_pb) none worker columns ids parts manager
      (omega arith) worker-IsMember worker-HasEdges read_parts parts_below ids_below ids-AreUnique
      (0, omega arith, omega arith) (λ w lt. (refl, refl)) run.0 run.1 1 (omega arith)
