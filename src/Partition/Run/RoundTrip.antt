-- ===== src/Partition/Run/RoundTrip.antt =====
-- Partitioning a homogeneous graph into files and loading a part.
use graphlearn_for_pytorch.Prelude.{
  ℕ, ◌<◌, ◌≡◌, refl, ap, ◌∙◌, true, ==_refl, Option, none, some, List, [], ◌∷◌, arith, lt→ltb,
  get_elem?, length, range,
}
use graphlearn_for_pytorch.Torch.{Torch}
use graphlearn_for_pytorch.Typing.{String, GraphPartitionData, FeaturePartitionData, PartitionBook}
use graphlearn_for_pytorch.Partition.Base.{PartitionerBase, homo, partition_graph}
use graphlearn_for_pytorch.Partition.Files.{
  meta_file, part, name, Files, save_pb, write, save_graph_partition, save_feature_partition,
  load_ids, exists, is_there, ids_of, pt,
}
use graphlearn_for_pytorch.Partition.Files.Parts.{run_all-names}
use graphlearn_for_pytorch.Partition.Files.Loaded.{is_there-made}
use graphlearn_for_pytorch.Partition.Run.{
  NodePartitioner, partition_node_feat, partition_edge_feat, save_if_there, partition,
}
use graphlearn_for_pytorch.Partition.Run.Load.{homo_if_there, load_partition}
use graphlearn_for_pytorch.Partition.Run.Features.{
  at_part, partition_node_feat_complete, partition_edge_feat_complete,
}
use graphlearn_for_pytorch.Partition.Run.Savers.{
  feature_saver, part_saver, part_saver-IsLocal, save_graph_if, after_nodes, after_edges, agrees,
  loads_graph, loads_node_feat, loads_edge_feat, save_node_feats-runs, save_graphs-runs,
}

abbrev pub no_files : {Row : Type 0} → Files Row
no_files q = none

module _ {Row : Type 0} where
  saved_dir :
      (rows : Option (List Row)) (f : FeaturePartitionData Row) (i : ℕ) (group : String)
      (files : Files Row)
      → exists
          (save_feature_partition i (record f { cache_feats = rows }) group none files)
          (part i ∷ [])
        ≡ true
  unfolding save_feature_partition
  saved_dir none f i group files = rw (==_refl i) (is_there-made (files (part i ∷ [])))
  saved_dir (some rows) f i group files = rw (==_refl i) (is_there-made (files (part i ∷ [])))

  feature_keeps_dir :
      (o : Option (FeaturePartitionData Row)) (i : ℕ) (group : String) (files : Files Row)
      → exists files (part i ∷ []) ≡ true
      → exists (save_if_there i o group none files) (part i ∷ []) ≡ true
  feature_keeps_dir none i group files h = h
  feature_keeps_dir (some f) i group files h = saved_dir f.cache_feats f i group files

  graph_makes_dir :
      (g : GraphPartitionData) (i : ℕ) (files : Files Row)
      → exists (save_graph_partition i g none files) (part i ∷ []) ≡ true
  unfolding save_graph_partition
  graph_makes_dir g i files = rw (==_refl i) (is_there-made (files (part i ∷ [])))

  module _ (nf ef : List (Option (FeaturePartitionData Row))) (graphs : List GraphPartitionData)
      (node_pb edge_pb : PartitionBook) (parts idx : ℕ) (lt : idx < parts) where
    loads_node_pb :
        load_ids (after_edges nf ef graphs node_pb edge_pb parts idx lt) (name (pt "node_pb") ∷ [])
        ≡ some node_pb
    unfolding save_pb
    loads_node_pb = ap ids_of (
        run_all-names (part_saver graphs ef) (part_saver-IsLocal graphs ef) (range parts)
          (after_nodes nf ef graphs node_pb edge_pb parts idx lt) (pt "node_pb") [])

    loads_edge_pb :
        load_ids (after_edges nf ef graphs node_pb edge_pb parts idx lt) (name (pt "edge_pb") ∷ [])
        ≡ some edge_pb
    unfolding save_pb
    loads_edge_pb = refl

    module _ (graph : GraphPartitionData) (at_graph : get_elem? graphs idx ≡ some graph) where
      has_dir :
          exists (after_edges nf ef graphs node_pb edge_pb parts idx lt) (part idx ∷ []) ≡ true
      has_dir =
          ap is_there (agrees nf ef graphs node_pb edge_pb parts idx lt [])
          ∙ feature_keeps_dir (at_part ef idx) idx "edge_feat" _ (
              ap
                (λ o.
                  exists (save_graph_if idx o (feature_saver "node_feat" nf idx no_files))
                    (part idx ∷ []))
                at_graph
              ∙ graph_makes_dir graph idx _)

  -- A run on a homogeneous graph into a directory without files, whose steps succeed with one graph
  -- for each part, saves files from which each part is loaded as it was: its graph, its features if
  -- there are any, and the two books.
  pub partition-load :
      (torch : Torch) (self : PartitionerBase Row) (node : NodePartitioner) (n : ℕ)
      (node_ids : List (List ℕ)) (node_pb edge_pb : PartitionBook)
      (nf ef : List (Option (FeaturePartitionData Row))) (graphs : List GraphPartitionData)
      (idx : ℕ) (graph : GraphPartitionData)
      → self.num_nodes ≡ homo n
      → node.partition_node none ≡ some (node_ids, node_pb)
      → partition_node_feat torch self node node_ids none ≡ some nf
      → partition_graph torch self (homo node_pb) none ≡ some (graphs, edge_pb)
      → partition_edge_feat torch self graphs none ≡ some ef
      → length graphs ≡ self.num_parts
      → idx < self.num_parts
      → get_elem? graphs idx ≡ some graph
      → (files : Files Row) × (partition torch self node no_files ≡ some files)
        × (load_partition files idx
            ≡ some (record {
              num_partitions = self.num_parts;
              partition_idx = idx;
              graph = homo (some graph);
              node_feat = homo_if_there (at_part nf idx);
              edge_feat = homo_if_there (at_part ef idx);
              node_pb = homo node_pb;
              edge_pb = homo edge_pb;
            }))
  unfolding partition load_partition partition_node_feat partition_graph partition_edge_feat
  partition-load torch self node n node_ids node_pb edge_pb nf ef graphs idx graph hn e1 e2 e3 e4 l2
        lt at =
      let (l1, ok1) = partition_node_feat_complete torch self node node_ids nf e2 in
      let (l3, ok2) = partition_edge_feat_complete torch self graphs ef e4 in
      let files =
        write (name "META" ∷ []) (meta_file (record { num_parts = self.num_parts; types = none }))
          (after_edges nf ef graphs node_pb edge_pb self.num_parts idx lt) in
      (
        files,
        rw
            (
              hn,
              e1,
              e2,
              save_node_feats-runs nf self.num_parts 0 no_files (omega (arith, l1)),
              e3,
              e4,
              save_graphs-runs graphs ef self.num_parts 0
                  (after_nodes nf ef graphs node_pb edge_pb self.num_parts idx lt)
                  (omega (arith, l3)) (omega (arith, l2)),
            )
            refl,
        rw
            (
              lt→ltb idx self.num_parts lt,
              has_dir nf ef graphs node_pb edge_pb self.num_parts idx lt graph at,
              loads_graph nf ef graphs node_pb edge_pb self.num_parts idx lt graph at (ok1 idx)
                  (ok2 idx),
              loads_node_feat nf ef graphs node_pb edge_pb self.num_parts idx lt graph at (ok1 idx)
                  (ok2 idx),
              loads_edge_feat nf ef graphs node_pb edge_pb self.num_parts idx lt graph at (ok1 idx)
                  (ok2 idx),
              loads_node_pb nf ef graphs node_pb edge_pb self.num_parts idx lt,
            )
            refl,
      )
