-- ===== src/Partition/Files.antt =====
-- The files of a partitioned graph: the `save_*` and `_load_*` functions of
-- graphlearn_torch/python/partition/base.py. Paths are relative to the output directory.
use Prim.Native.String.{◌++◌ as append_str}
use text.Mathlib.Text.{◌==◌ as str_eq}
use graphlearn_for_pytorch.Prelude.{
  ℕ, Bool, true, false, ◌&&◌, Option, none, some, List, [], ◌∷◌, ◌++◌, ◌==◌, if◌then◌else◌, ◌>>=◌,
}
use graphlearn_for_pytorch.Typing.{
  String, NodeType, EdgeType, as_str, GraphPartitionData, FeaturePartitionData, PartitionBook,
}
pub mod Parts
pub mod Loaded

-- A component of a path: `part{n}`, or a name.
pub data Component : Type 0 where
  part : ℕ → Component
  name : String → Component

abbrev pub FilePath : Type 0
FilePath = List Component

abbrev pub same_component : Component → Component → Bool
same_component (part i) (part j) = i == j
same_component (part i) (name t) = false
same_component (name s) (part j) = false
same_component (name s) (name t) = str_eq s t

abbrev pub same_path : FilePath → FilePath → Bool
same_path [] [] = true
same_path [] (d ∷ q) = false
same_path (c ∷ p) [] = false
same_path (c ∷ p) (d ∷ q) = same_component c d && same_path p q

-- Is the first path the second or a directory above it?
abbrev pub is_above : FilePath → FilePath → Bool
is_above [] q = true
is_above (c ∷ p) [] = false
is_above (c ∷ p) (d ∷ q) = same_component c d && is_above p q

-- What `save_meta` writes. The class of the data says if there are types.
pub record Meta : Type 0 where
  pub num_parts : ℕ
  pub types : Option (List NodeType × List EdgeType)

pub data Entry (Row : Type 0) : Type 0 where
  directory : Entry Row
  meta_file : Meta → Entry Row
  ids_file : List ℕ → Entry Row
  rows_file : List Row → Entry Row
  none_file : Entry Row

abbrev pub Files : Type 0 → Type 0
Files Row = FilePath → Option (Entry Row)

abbrev typed_dir : FilePath → Option String → FilePath
typed_dir subdir none = subdir
typed_dir subdir (some type) = subdir ++ name type ∷ []

abbrev pub pt : String → String
pt type = append_str type ".pt"

module _ {Row : Type 0} where
  abbrev pub write : FilePath → Entry Row → Files Row → Files Row
  write path entry files q = if same_path q path then some entry else files q

  abbrev pub made : Bool → Option (Entry Row) → Option (Entry Row)
  made false old = old
  made true none = some directory
  made true (some entry) = some entry

  -- `ensure_dir`: the directory and those above it.
  abbrev pub ensure_dir : FilePath → Files Row → Files Row
  ensure_dir path files q = made (is_above q path) (files q)

  abbrev pub ids_of : Option (Entry Row) → Option (List ℕ)
  ids_of none = none
  ids_of (some entry) = elim entry [ ids_file ids ↦ some ids | _ ↦ none ]

  abbrev pub rows_of : Option (Entry Row) → Option (List Row)
  rows_of none = none
  rows_of (some entry) = elim entry [ rows_file rows ↦ some rows | _ ↦ none ]

  -- The ids of a file that may hold `None`.
  abbrev pub ids_or_none_of : Option (Entry Row) → Option (Option (List ℕ))
  ids_or_none_of none = none
  ids_or_none_of (some entry) = elim entry [
    | ids_file ids ↦ some (some ids)
    | none_file ↦ some none
    | _ ↦ none
  ]

  abbrev pub is_there : Option (Entry Row) → Bool
  is_there none = false
  is_there (some entry) = true

  -- `torch.load`: raises on a missing file.
  abbrev pub load_ids : Files Row → FilePath → Option (List ℕ)
  load_ids files path = ids_of (files path)

  abbrev pub load_rows : Files Row → FilePath → Option (List Row)
  load_rows files path = rows_of (files path)

  abbrev pub load_ids_or_none : Files Row → FilePath → Option (Option (List ℕ))
  load_ids_or_none files path = ids_or_none_of (files path)

  abbrev pub exists : Files Row → FilePath → Bool
  exists files path = is_there (files path)

  -- `output_dir/{book}/{type}.pt`, or `output_dir/{book}.pt`; `book` is `node_pb` or `edge_pb`.
  unfoldable pub save_pb : String → PartitionBook → Option String → Files Row → Files Row
  save_pb book pb none files = write (name (pt book) ∷ []) (ids_file pb) files
  save_pb book pb (some type) files =
      write (name book ∷ name (pt type) ∷ []) (ids_file pb) (ensure_dir (name book ∷ []) files)

  unfoldable pub save_graph_partition :
      ℕ → GraphPartitionData → Option String → Files Row → Files Row
  save_graph_partition partition_idx graph etype files =
      let subdir = typed_dir (part partition_idx ∷ name "graph" ∷ []) etype in
      write (subdir ++ name "eids.pt" ∷ []) (ids_file graph.eids) (
        write (subdir ++ name "cols.pt" ∷ []) (ids_file graph.edge_index.1) (
          write (subdir ++ name "rows.pt" ∷ []) (ids_file graph.edge_index.0)
            (ensure_dir subdir files)))

  abbrev pub ids_or_none : Option (List ℕ) → Entry Row
  ids_or_none none = none_file
  ids_or_none (some ids) = ids_file ids

  abbrev pub save_cache : FilePath → Option (List Row) → Option (List ℕ) → Files Row → Files Row
  save_cache subdir none cache_ids files = files
  save_cache subdir (some rows) cache_ids files =
      write (subdir ++ name "cache_ids.pt" ∷ []) (ids_or_none cache_ids)
        (write (subdir ++ name "cache_feats.pt" ∷ []) (rows_file rows) files)

  unfoldable pub save_feature_partition :
      ℕ → FeaturePartitionData Row → String → Option String → Files Row → Files Row
  save_feature_partition partition_idx feature group type files =
      let subdir = typed_dir (part partition_idx ∷ name group ∷ []) type in
      save_cache subdir feature.cache_feats feature.cache_ids (
        write (subdir ++ name "ids.pt" ∷ []) (ids_file feature.ids) (
          write (subdir ++ name "feats.pt" ∷ []) (rows_file feature.feats)
            (ensure_dir subdir files)))

  -- The outer option is an exception, the inner one the `None` for a missing directory.
  unfoldable pub load_graph_partition_data :
      Files Row → FilePath → Option (Option GraphPartitionData)
  load_graph_partition_data files dir =
      if exists files dir
      then (do
        rows ← load_ids files (dir ++ name "rows.pt" ∷ [])
        cols ← load_ids files (dir ++ name "cols.pt" ∷ [])
        eids ← load_ids files (dir ++ name "eids.pt" ∷ [])
        some (some (record { edge_index = (rows, cols); eids = eids })))
      else some none

  abbrev pub load_cache :
      Files Row → FilePath → FilePath → Option (Option (List Row) × Option (List ℕ))
  load_cache files cache_feats_path cache_ids_path =
      if exists files cache_feats_path && exists files cache_ids_path
      then (do
        cache_feats ← load_rows files cache_feats_path
        cache_ids ← load_ids_or_none files cache_ids_path
        some (some cache_feats, cache_ids))
      else some (none, none)

  unfoldable pub load_feature_partition_data :
      Files Row → FilePath → Option (Option (FeaturePartitionData Row))
  load_feature_partition_data files dir =
      if exists files dir
      then (do
        feats ← load_rows files (dir ++ name "feats.pt" ∷ [])
        ids ← load_ids files (dir ++ name "ids.pt" ∷ [])
        (cache_feats, cache_ids) ←
            load_cache files (dir ++ name "cache_feats.pt" ∷ []) (dir ++ name "cache_ids.pt" ∷ [])
        some (
            some (record {
              feats = feats;
              ids = ids;
              cache_feats = cache_feats;
              cache_ids = cache_ids;
            })))
      else some none
