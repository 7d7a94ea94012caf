-- ===== src/Distributed/Partitioner/Whole.antt =====
-- `partition` of `DistRandomPartitioner`, in
-- graphlearn_torch/python/distributed/dist_random_partitioner.py.
use graphlearn_for_pytorch.Prelude.{
  ℕ, Option, none, some, List, [], ◌∷◌, Dict, insert, string_keys, triple_keys,
}
use graphlearn_for_pytorch.Torch.{Torch}
use graphlearn_for_pytorch.Typing.{String, NodeType, EdgeType, as_str, PartitionBook}
use graphlearn_for_pytorch.Partition.Base.{PerType, homo, hetero}
use graphlearn_for_pytorch.Partition.Files.{
  Files, Entry, meta_file, name, write, save_pb, save_graph_partition,
}
use graphlearn_for_pytorch.Partition.Run.{save_if_there}
use graphlearn_for_pytorch.Distributed.Partitioner.Exchange.{Exchange, returns, or_raise, and_then}
use graphlearn_for_pytorch.Distributed.Partitioner.Methods.{
  DistRandomPartitioner, partition_node, partition_node_feat, partition_graph, partition_edge_feat,
}

module _ (torch : Torch) {Row : Type 0} (self : DistRandomPartitioner Row) where
  abbrev saved_name : Option EdgeType → Option String
  saved_name none = none
  saved_name (some etype) = some (as_str etype)

  -- The nodes of one type, or of a homogeneous graph: the book and the files.
  unfoldable pub nodes_of :
      (ℕ → ℕ → List ℕ) → Option NodeType → Files Row → Exchange Row (PartitionBook × Files Row)
  unfolding partition_node partition_node_feat save_pb
  nodes_of randperm ntype files = and_then (partition_node torch self randperm ntype) λ book.
      and_then (or_raise book) λ node_pb.
        let files' = save_pb "node_pb" node_pb ntype files in
        and_then (partition_node_feat torch self node_pb ntype) λ feature.
          returns
            (node_pb, save_if_there self.current_partition_idx feature "node_feat" ntype files')

  -- The edges of one type, or of a homogeneous graph.
  unfoldable pub edges_of :
      PerType NodeType PartitionBook → Option EdgeType → Files Row → Exchange Row (Files Row)
  unfolding partition_graph partition_edge_feat save_pb save_graph_partition
  edges_of node_pbs etype files = and_then (partition_graph torch self node_pbs etype) λ result.
      and_then (or_raise result.1) λ edge_pb.
        let files' = save_pb "edge_pb" edge_pb (saved_name etype) files in
        let files'' =
          save_graph_partition self.current_partition_idx result.0 (saved_name etype) files' in
        and_then (partition_edge_feat torch self edge_pb etype) λ feature.
          returns (
            save_if_there self.current_partition_idx feature "edge_feat" (saved_name etype) files'')

  unfoldable pub all_nodes :
      (NodeType → ℕ → ℕ → List ℕ)
      → List NodeType
      → Dict NodeType PartitionBook
      → Files Row
      → Exchange Row (Dict NodeType PartitionBook × Files Row)
  unfolding nodes_of
  all_nodes randperm [] node_pb_dict files = returns (node_pb_dict, files)
  all_nodes randperm (ntype ∷ ntypes) node_pb_dict files =
      and_then (nodes_of (randperm ntype) (some ntype) files)
        λ result. all_nodes randperm ntypes (insert node_pb_dict ntype result.0) result.1

  unfoldable pub all_edges :
      List EdgeType → Dict NodeType PartitionBook → Files Row → Exchange Row (Files Row)
  unfolding edges_of
  all_edges [] node_pb_dict files = returns files
  all_edges (etype ∷ etypes) node_pb_dict files =
      and_then (edges_of (hetero node_pb_dict) (some etype) files) (all_edges etypes node_pb_dict)

  abbrev meta_entry : Option (List NodeType × List EdgeType) → Entry Row
  meta_entry types = meta_file (record { num_parts = self.num_parts; types = types })

  unfoldable pub partition : (NodeType → ℕ → ℕ → List ℕ) → Files Row → Exchange Row (Files Row)
  unfolding nodes_of edges_of all_nodes all_edges
  partition randperm files = elim self.num_nodes [
    | homo node_num ↦
        (and_then (nodes_of (randperm "") none files) λ nodes.
          and_then (edges_of (homo nodes.0) none nodes.1)
            λ files'. returns (write (name "META" ∷ []) (meta_entry none) files'))
    | hetero d ↦
        (and_then (all_nodes randperm self.node_types [] files) λ nodes.
          and_then (all_edges self.edge_types nodes.0 nodes.1) λ files'. returns (
            write (name "META" ∷ []) (meta_entry (some (self.node_types, self.edge_types))) files'))
  ]
