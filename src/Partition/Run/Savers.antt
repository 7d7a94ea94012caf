-- ===== src/Partition/Run/Savers.antt =====
-- The loops of `partition` that save the parts of a homogeneous graph, seen from one part.
use text.Mathlib.Text.{◌==◌ as str_eq}
use graphlearn_for_pytorch.Prelude.{
  false, ==_refl, ℕ, zero, suc, ◌+◌, ◌≤◌, ◌<◌, ◌≡◌, ◌≢◌, refl, ap, ◌∙◌, Option, none, some, List,
  [], ◌∷◌, arith, ◌>>=◌, get_elem?, get_elem?-lt, length, range, range_from,
}
use graphlearn_for_pytorch.Typing.{String, GraphPartitionData, FeaturePartitionData, PartitionBook}
use graphlearn_for_pytorch.Partition.Files.{
  part, name, FilePath, Files, save_pb, save_graph_partition, load_graph_partition_data,
  load_feature_partition_data,
}
use graphlearn_for_pytorch.Partition.Files.Parts.{
  Saver, Agree, AgreeIn, IsLocal, run_all, run_all-in, save_graph-apart, save_graph-names,
  save_graph-same, save_feature-apart, save_feature-names, save_feature-same, load_graph-same,
  load_feature-same,
}
use graphlearn_for_pytorch.Partition.Files.Loaded.{
  HasIds, load_graph-save, load_feature-save, save_feature-other,
}
use graphlearn_for_pytorch.Partition.Run.Features.{at_part}
use graphlearn_for_pytorch.Partition.Run.{save_if_there, save_node_feats, save_graphs}

module _ {Row : Type 0} where
  abbrev pub feature_saver : String → List (Option (FeaturePartitionData Row)) → Saver Row
  feature_saver group features i = save_if_there i (at_part features i) group none

  abbrev pub save_graph_if : ℕ → Option GraphPartitionData → Files Row → Files Row
  save_graph_if i none files = files
  save_graph_if i (some graph) files = save_graph_partition i graph none files

  abbrev pub part_saver :
      List GraphPartitionData → List (Option (FeaturePartitionData Row)) → Saver Row
  part_saver graphs features i files =
      feature_saver "edge_feat" features i (save_graph_if i (get_elem? graphs i) files)

  if_there-apart :
      (feature : Option (FeaturePartitionData Row)) (group : String) (i j : ℕ) (files : Files Row)
      → j ≢ i
      → Agree j (save_if_there i feature group none files) files
  if_there-apart none group i j files ne r = refl
  if_there-apart (some f) group i j files ne r = save_feature-apart f group i j files ne r

  if_there-names :
      (feature : Option (FeaturePartitionData Row)) (group : String) (i : ℕ) (files : Files Row)
      (s : String) (r : FilePath)
      → save_if_there i feature group none files (name s ∷ r) ≡ files (name s ∷ r)
  if_there-names none group i files s r = refl
  if_there-names (some f) group i files s r = save_feature-names f group i files s r

  if_there-same :
      (feature : Option (FeaturePartitionData Row)) (group : String) (i : ℕ) (a b : Files Row)
      → Agree i a b
      → Agree i (save_if_there i feature group none a) (save_if_there i feature group none b)
  if_there-same none group i a b e = e
  if_there-same (some f) group i a b e = save_feature-same f group i a b e

  pub feature_saver-IsLocal :
      (group : String) (features : List (Option (FeaturePartitionData Row)))
      → IsLocal (feature_saver group features)
  feature_saver-IsLocal group features = record {
    apart = λ i. if_there-apart (at_part features i) group i;
    names = λ i. if_there-names (at_part features i) group i;
    same = λ i. if_there-same (at_part features i) group i;
  }

  graph_if-apart :
      (graph : Option GraphPartitionData) (i j : ℕ) (files : Files Row)
      → j ≢ i
      → Agree j (save_graph_if i graph files) files
  graph_if-apart none i j files ne r = refl
  graph_if-apart (some g) i j files ne r = save_graph-apart g i j files ne r

  graph_if-names :
      (graph : Option GraphPartitionData) (i : ℕ) (files : Files Row) (s : String) (r : FilePath)
      → save_graph_if i graph files (name s ∷ r) ≡ files (name s ∷ r)
  graph_if-names none i files s r = refl
  graph_if-names (some g) i files s r = save_graph-names g i files s r

  graph_if-same :
      (graph : Option GraphPartitionData) (i : ℕ) (a b : Files Row)
      → Agree i a b
      → Agree i (save_graph_if i graph a) (save_graph_if i graph b)
  graph_if-same none i a b e = e
  graph_if-same (some g) i a b e = save_graph-same g i a b e

  pub part_saver-IsLocal :
      (graphs : List GraphPartitionData) (features : List (Option (FeaturePartitionData Row)))
      → IsLocal (part_saver graphs features)
  part_saver-IsLocal graphs features = record {
    apart = λ i j files ne r.
        if_there-apart (at_part features i) "edge_feat" i j _ ne r
        ∙ graph_if-apart (get_elem? graphs i) i j files ne r;
    names = λ i files s r.
        if_there-names (at_part features i) "edge_feat" i _ s r
        ∙ graph_if-names (get_elem? graphs i) i files s r;
    same = λ i a b e.
        if_there-same (at_part features i) "edge_feat" i _ _
          (graph_if-same (get_elem? graphs i) i a b e);
  }

  features_head :
      (o : Option (Option (FeaturePartitionData Row))) (f : Option (FeaturePartitionData Row))
      (s : ℕ) (files : Files Row) (k : Files Row → Option (Files Row))
      → o ≡ some f
      → (o >>= λ feature. k (save_if_there s feature "node_feat" none files))
        ≡ k (save_if_there s (elim o [ none ↦ none | some x ↦ x ]) "node_feat" none files)
  features_head none f s files k e = cc
  features_head (some feature) f s files k e = refl

  parts_head :
      (og : Option GraphPartitionData) (o : Option (Option (FeaturePartitionData Row)))
      (g : GraphPartitionData) (f : Option (FeaturePartitionData Row)) (s : ℕ) (files : Files Row)
      (k : Files Row → Option (Files Row))
      → og ≡ some g
      → o ≡ some f
      → (og >>= λ graph. o >>= λ feature.
          k (save_if_there s feature "edge_feat" none (save_graph_partition s graph none files)))
        ≡ k (
            save_if_there s
              (elim o [ none ↦ none | some x ↦ x ])
              "edge_feat"
              none
              (save_graph_if s og files))
  parts_head none o g f s files k eg e = cc
  parts_head (some graph) none g f s files k eg e = cc
  parts_head (some graph) (some feature) g f s files k eg e = refl

  pub save_node_feats-runs :
      (features : List (Option (FeaturePartitionData Row))) (n s : ℕ) (files : Files Row)
      → s + n ≤ length features
      → save_node_feats features none (range_from s n) files
        ≡ some (run_all (feature_saver "node_feat" features) (range_from s n) files)
  unfolding save_node_feats
  save_node_feats-runs features zero s files h = refl
  save_node_feats-runs features (suc n) s files h =
      let (f, e) = get_elem?-lt features s (omega arith) in
      features_head (get_elem? features s) f s files
        (save_node_feats features none (range_from (suc s) n)) e
      ∙ save_node_feats-runs features n (suc s) _ (omega arith)

  pub save_graphs-runs :
      (graphs : List GraphPartitionData) (features : List (Option (FeaturePartitionData Row)))
      (n s : ℕ) (files : Files Row)
      → s + n ≤ length features
      → s + n ≤ length graphs
      → save_graphs graphs features none (range_from s n) files
        ≡ some (run_all (part_saver graphs features) (range_from s n) files)
  unfolding save_graphs
  save_graphs-runs graphs features zero s files h k = refl
  save_graphs-runs graphs features (suc n) s files h k =
      let (f, e) = get_elem?-lt features s (omega arith) in
      let (g, eg) = get_elem?-lt graphs s (omega arith) in
      parts_head (get_elem? graphs s) (get_elem? features s) g f s files
        (save_graphs graphs features none (range_from (suc s) n)) eg e
      ∙ save_graphs-runs graphs features n (suc s) _ (omega arith) (omega arith)

  if_there-other :
      (o : Option (FeaturePartitionData Row)) (i : ℕ) (group other : String) (files : Files Row)
      → str_eq other group ≡ false
      → AgreeIn i other (save_if_there i o group none files) files
  if_there-other none i group other files h r = refl
  if_there-other (some f) i group other files h r = save_feature-other i group other f files r h

  graph_if-other :
      (o : Option GraphPartitionData) (i : ℕ) (other : String) (files : Files Row)
      → str_eq other "graph" ≡ false
      → AgreeIn i other (save_graph_if i o files) files
  unfolding save_graph_partition
  graph_if-other none i other files h r = refl
  graph_if-other (some g) i other files h r = rw (==_refl i, h) refl

  load_if_there :
      (o : Option (FeaturePartitionData Row)) (i : ℕ) (group : String) (files : Files Row)
      → AgreeIn i group files (λ q. none)
      → ((f : FeaturePartitionData Row) → o ≡ some f → HasIds f)
      → load_feature_partition_data (save_if_there i o group none files) (part i ∷ name group ∷ [])
        ≡ some o
  unfolding load_feature_partition_data
  load_if_there none i group files blank h = rw (blank []) refl
  load_if_there (some f) i group files blank h =
      load_feature-save i group f files (h f refl) (blank (name "cache_feats.pt" ∷ []))

  -- The files after a run, seen from the part `idx`.
  module _ (nf ef : List (Option (FeaturePartitionData Row))) (graphs : List GraphPartitionData)
      (node_pb edge_pb : PartitionBook) (parts idx : ℕ) (lt : idx < parts) where
    abbrev pub after_nodes : Files Row
    after_nodes =
        save_pb "node_pb" node_pb none
          (run_all (feature_saver "node_feat" nf) (range parts) (λ q. none))

    abbrev pub after_edges : Files Row
    after_edges =
        save_pb "edge_pb" edge_pb none (run_all (part_saver graphs ef) (range parts) after_nodes)

    abbrev pub own : Files Row
    own = part_saver graphs ef idx (feature_saver "node_feat" nf idx (λ q. none))

    pub agrees : Agree idx after_edges own
    unfolding save_pb
    agrees r =
        run_all-in (part_saver graphs ef) (part_saver-IsLocal graphs ef) parts 0 idx after_nodes
          (omega arith) (omega arith) r
        ∙ (part_saver-IsLocal graphs ef).same idx after_nodes
            (feature_saver "node_feat" nf idx (λ q. none))
            (run_all-in (feature_saver "node_feat" nf) (feature_saver-IsLocal "node_feat" nf) parts
              0 idx (λ q. none) (omega arith) (omega arith))
            r

    module _ (graph : GraphPartitionData) (at_graph : get_elem? graphs idx ≡ some graph)
        (node_ok : (f : FeaturePartitionData Row) → at_part nf idx ≡ some f → HasIds f)
        (edge_ok : (f : FeaturePartitionData Row) → at_part ef idx ≡ some f → HasIds f) where
      pub loads_graph :
          load_graph_partition_data after_edges (part idx ∷ name "graph" ∷ []) ≡ some (some graph)
      loads_graph =
          load_graph-same idx after_edges own "graph" (λ r. agrees (name "graph" ∷ r))
          ∙ load_graph-same idx own
              (save_graph_partition idx graph none (feature_saver "node_feat" nf idx (λ q. none)))
              "graph"
              (λ r.
                if_there-other (at_part ef idx) idx "edge_feat" "graph" _ refl r
                ∙ ap
                    (λ o.
                      save_graph_if idx o (feature_saver "node_feat" nf idx (λ q. none))
                        (part idx ∷ name "graph" ∷ r))
                    at_graph)
          ∙ load_graph-save idx graph _

      pub loads_node_feat :
          load_feature_partition_data after_edges (part idx ∷ name "node_feat" ∷ [])
          ≡ some (at_part nf idx)
      loads_node_feat =
          load_feature-same idx after_edges (feature_saver "node_feat" nf idx (λ q. none))
            "node_feat"
            (λ r.
              agrees (name "node_feat" ∷ r)
              ∙ if_there-other (at_part ef idx) idx "edge_feat" "node_feat" _ refl r
              ∙ graph_if-other (get_elem? graphs idx) idx "node_feat" _ refl r)
          ∙ load_if_there (at_part nf idx) idx "node_feat" (λ q. none) (λ r. refl) node_ok

      pub loads_edge_feat :
          load_feature_partition_data after_edges (part idx ∷ name "edge_feat" ∷ [])
          ≡ some (at_part ef idx)
      loads_edge_feat =
          load_feature-same idx after_edges own "edge_feat" (λ r. agrees (name "edge_feat" ∷ r))
          ∙ load_if_there (at_part ef idx) idx "edge_feat" _
              (λ r.
                graph_if-other (get_elem? graphs idx) idx "edge_feat" _ refl r
                ∙ if_there-other (at_part nf idx) idx "node_feat" "edge_feat" _ refl r)
              edge_ok
