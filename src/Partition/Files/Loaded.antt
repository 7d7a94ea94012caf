-- ===== src/Partition/Files/Loaded.antt =====
-- Loading what was saved in a part.
use text.Mathlib.TextEquality.{eq_iff}
use text.Mathlib.Text.{◌==◌ as str_eq}
use graphlearn_for_pytorch.Prelude.{
  ℕ, ◌≡◌, refl, ◌∙◌, true, false, Option, none, some, List, [], ◌∷◌, ==_refl,
}
use graphlearn_for_pytorch.Typing.{String, GraphPartitionData, FeaturePartitionData}
use graphlearn_for_pytorch.Partition.Files.{
  part, name, FilePath, Entry, ids_file, rows_file, Files, write, made, ensure_dir, is_there,
  save_cache, save_graph_partition, save_feature_partition, load_graph_partition_data,
  load_feature_partition_data,
}

str_refl : (s : String) → str_eq s s ≡ true
str_refl s = (eq_iff s s).1 refl

module _ {Row : Type 0} where
  pub is_there-made : (old : Option (Entry Row)) → is_there (made true old) ≡ true
  is_there-made none = refl
  is_there-made (some entry) = refl

  pub load_graph-save :
      (i : ℕ) (graph : GraphPartitionData) (files : Files Row)
      → load_graph_partition_data
          (save_graph_partition i graph none files)
          (part i ∷ name "graph" ∷ [])
        ≡ some (some graph)
  unfolding load_graph_partition_data save_graph_partition
  load_graph-save i graph files =
      rw (==_refl i, is_there-made (files (part i ∷ name "graph" ∷ []))) refl

  -- The rows and the ids of a cache are saved and loaded together.
  abbrev pub HasIds : FeaturePartitionData Row → Type 0
  HasIds feature = feature.cache_feats ≡ none → feature.cache_ids ≡ none

  module _ (i : ℕ) (group : String) (feats : List Row) (ids : List ℕ) (files : Files Row) where
    abbrev saved : Option (List Row) → Option (List ℕ) → Files Row
    saved rows cached = save_cache (part i ∷ name group ∷ []) rows cached (
        write (part i ∷ name group ∷ name "ids.pt" ∷ []) (ids_file ids) (
          write (part i ∷ name group ∷ name "feats.pt" ∷ []) (rows_file feats)
            (ensure_dir (part i ∷ name group ∷ []) files)))

    feature_back :
        (rows : Option (List Row)) (cached : Option (List ℕ))
        → files (part i ∷ name group ∷ name "cache_feats.pt" ∷ []) ≡ none
        → (rows ≡ none → cached ≡ none)
        → load_feature_partition_data (saved rows cached) (part i ∷ name group ∷ [])
          ≡ some
              (some (record { feats = feats; ids = ids; cache_feats = rows; cache_ids = cached }))
    unfolding load_feature_partition_data
    feature_back none cached e h =
        rw (==_refl i, str_refl group, is_there-made (files (part i ∷ name group ∷ [])), e, h refl)
          refl
    feature_back (some rows) none e h =
        rw (==_refl i, str_refl group, is_there-made (files (part i ∷ name group ∷ []))) refl
    feature_back (some rows) (some cached) e h =
        rw (==_refl i, str_refl group, is_there-made (files (part i ∷ name group ∷ []))) refl

  -- A feature partition that is saved where no cache was before is loaded as it was.
  pub load_feature-save :
      (i : ℕ) (group : String) (feature : FeaturePartitionData Row) (files : Files Row)
      → HasIds feature
      → files (part i ∷ name group ∷ name "cache_feats.pt" ∷ []) ≡ none
      → load_feature_partition_data
          (save_feature_partition i feature group none files)
          (part i ∷ name group ∷ [])
        ≡ some (some feature)
  unfolding save_feature_partition
  load_feature-save i group feature files h e =
      feature_back i group feature.feats feature.ids files feature.cache_feats feature.cache_ids e h

  cache_other :
      (i : ℕ) (group other : String) (rows : Option (List Row)) (ids : Option (List ℕ))
      (files : Files Row) (r : FilePath)
      → str_eq other group ≡ false
      → save_cache (part i ∷ name group ∷ []) rows ids files (part i ∷ name other ∷ r)
        ≡ files (part i ∷ name other ∷ r)
  cache_other i group other none ids files r h = refl
  cache_other i group other (some rows) ids files r h = rw (==_refl i, h) refl

  -- Saving in one group of a part leaves the rest of the part.
  pub save_feature-other :
      (i : ℕ) (group other : String) (feature : FeaturePartitionData Row) (files : Files Row)
      (r : FilePath)
      → str_eq other group ≡ false
      → save_feature_partition i feature group none files (part i ∷ name other ∷ r)
        ≡ files (part i ∷ name other ∷ r)
  unfolding save_feature_partition
  save_feature-other i group other feature files r h =
      cache_other i group other feature.cache_feats feature.cache_ids _ r h ∙ rw (==_refl i, h) refl
