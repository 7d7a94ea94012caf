-- ===== src/Partition/Files/Parts.antt =====
-- What saving one part changes in the files, and what loading it back gives.
use graphlearn_for_pytorch.Prelude.{
  ℕ, zero, suc, ◌+◌, ◌≤◌, ◌<◌, ◌≡◌, ◌≢◌, ◌⊎◌, inl, inr, refl, ap, sym, ◌∙◌, Option, none, some,
  List, [], ◌∷◌, arith, ==_ne, range_from,
}
use graphlearn_for_pytorch.Typing.{String, GraphPartitionData, FeaturePartitionData}
use graphlearn_for_pytorch.Partition.Files.{
  part, name, FilePath, Entry, Files, save_cache, save_graph_partition, save_feature_partition,
  load_graph_partition_data, load_feature_partition_data,
}

Nat_eq : (a b : ℕ) → (a ≡ b) ⊎ (a ≢ b)
Nat_eq a b = ground arith

abbrev pub Saver : Type 0 → Type 0
Saver Row = ℕ → Files Row → Files Row

module _ {Row : Type 0} where
  -- Two states of the files agree in a part.
  abbrev pub Agree : ℕ → Files Row → Files Row → Type 0
  Agree i a b = (r : FilePath) → a (part i ∷ r) ≡ b (part i ∷ r)

  pub record IsLocal (saver : Saver Row) : Type 0 where
    pub apart : (i j : ℕ) (files : Files Row) → j ≢ i → Agree j (saver i files) files
    pub names :
        (i : ℕ) (files : Files Row) (s : String) (r : FilePath)
        → saver i files (name s ∷ r) ≡ files (name s ∷ r)
    pub same : (i : ℕ) (a b : Files Row) → Agree i a b → Agree i (saver i a) (saver i b)

  abbrev pub run_all : Saver Row → List ℕ → Files Row → Files Row
  run_all saver [] files = files
  run_all saver (i ∷ is) files = run_all saver is (saver i files)

  module _ (saver : Saver Row) (ok : IsLocal saver) where
    pub run_all-names :
        (is : List ℕ) (files : Files Row) (s : String) (r : FilePath)
        → run_all saver is files (name s ∷ r) ≡ files (name s ∷ r)
    run_all-names [] files s r = refl
    run_all-names (i ∷ is) files s r = run_all-names is (saver i files) s r ∙ ok.names i files s r

    run_all-before :
        (n s j : ℕ) (files : Files Row)
        → j < s
        → Agree j (run_all saver (range_from s n) files) files
    run_all-before zero s j files h r = refl
    run_all-before (suc n) s j files h r =
        run_all-before n (suc s) j (saver s files) (omega arith) r
        ∙ ok.apart s j files (λ e. omega arith) r

    pub run_all-in :
        (n s j : ℕ) (files : Files Row)
        → s ≤ j
        → j < s + n
        → Agree j (run_all saver (range_from s n) files) (saver j files)
    run_all-in zero s j files h lt r = absurd (omega arith)
    run_all-in (suc n) s j files h lt r = elim (Nat_eq s j) [
      | inl e ↦ rw e (run_all-before n (suc j) j (saver j files) (omega arith) r)
      | inr ne ↦
          run_all-in n (suc s) j (saver s files) (omega arith) (omega arith) r
          ∙ ok.same j (saver s files) files (ok.apart s j files (λ e. ne (sym e))) r
    ]

  pub save_graph-apart :
      (graph : GraphPartitionData) (i j : ℕ) (files : Files Row)
      → j ≢ i
      → Agree j (save_graph_partition i graph none files) files
  unfolding save_graph_partition
  save_graph-apart graph i j files ne r = simp (==_ne j i ne) refl

  pub save_graph-names :
      (graph : GraphPartitionData) (i : ℕ) (files : Files Row) (s : String) (r : FilePath)
      → save_graph_partition i graph none files (name s ∷ r) ≡ files (name s ∷ r)
  unfolding save_graph_partition
  save_graph-names graph i files s r = refl

  pub save_graph-same :
      (graph : GraphPartitionData) (i : ℕ) (a b : Files Row)
      → Agree i a b
      → Agree i (save_graph_partition i graph none a) (save_graph_partition i graph none b)
  unfolding save_graph_partition
  save_graph-same graph i a b e r = rw (e r) refl

  module _ (i : ℕ) (group : String) (ids : Option (List ℕ)) where
    cache_apart :
        (rows : Option (List Row)) (j : ℕ) (files : Files Row)
        → j ≢ i
        → Agree j (save_cache (part i ∷ name group ∷ []) rows ids files) files
    cache_apart none j files ne r = refl
    cache_apart (some rows) j files ne r = simp (==_ne j i ne) refl

    cache_names :
        (rows : Option (List Row)) (files : Files Row) (s : String) (r : FilePath)
        → save_cache (part i ∷ name group ∷ []) rows ids files (name s ∷ r) ≡ files (name s ∷ r)
    cache_names none files s r = refl
    cache_names (some rows) files s r = refl

    cache_same :
        (rows : Option (List Row)) (a b : Files Row)
        → Agree i a b
        → Agree i
            (save_cache (part i ∷ name group ∷ []) rows ids a)
            (save_cache (part i ∷ name group ∷ []) rows ids b)
    cache_same none a b e r = e r
    cache_same (some rows) a b e r = rw (e r) refl

  pub save_feature-apart :
      (feature : FeaturePartitionData Row) (group : String) (i j : ℕ) (files : Files Row)
      → j ≢ i
      → Agree j (save_feature_partition i feature group none files) files
  unfolding save_feature_partition
  save_feature-apart feature group i j files ne r =
      cache_apart i group feature.cache_ids feature.cache_feats j _ ne r ∙ simp (==_ne j i ne) refl

  pub save_feature-names :
      (feature : FeaturePartitionData Row) (group : String) (i : ℕ) (files : Files Row) (s : String)
      (r : FilePath)
      → save_feature_partition i feature group none files (name s ∷ r) ≡ files (name s ∷ r)
  unfolding save_feature_partition
  save_feature-names feature group i files s r =
      cache_names i group feature.cache_ids feature.cache_feats _ s r

  pub save_feature-same :
      (feature : FeaturePartitionData Row) (group : String) (i : ℕ) (a b : Files Row)
      → Agree i a b
      → Agree i
          (save_feature_partition i feature group none a)
          (save_feature_partition i feature group none b)
  unfolding save_feature_partition
  save_feature-same feature group i a b e =
      cache_same i group feature.cache_ids feature.cache_feats _ _ (λ r. rw (e r) refl)

  -- Two states of the files agree in one directory of a part.
  abbrev pub AgreeIn : ℕ → String → Files Row → Files Row → Type 0
  AgreeIn i g a b = (r : FilePath) → a (part i ∷ name g ∷ r) ≡ b (part i ∷ name g ∷ r)

  -- The files of a directory, as all files.
  abbrev lifted : (FilePath → Option (Entry Row)) → Files Row
  lifted dir_files [] = none
  lifted dir_files (c ∷ []) = none
  lifted dir_files (c ∷ d ∷ r) = dir_files r

  -- What is loaded from a directory of a part depends on its files alone.
  pub load_graph-same :
      (i : ℕ) (a b : Files Row) (g : String)
      → AgreeIn i g a b
      → load_graph_partition_data a (part i ∷ name g ∷ [])
        ≡ load_graph_partition_data b (part i ∷ name g ∷ [])
  unfolding load_graph_partition_data
  load_graph-same i a b g e =
      ap (λ v. load_graph_partition_data (lifted v) (part i ∷ name g ∷ [])) (λ k r. e r k)

  pub load_feature-same :
      (i : ℕ) (a b : Files Row) (g : String)
      → AgreeIn i g a b
      → load_feature_partition_data a (part i ∷ name g ∷ [])
        ≡ load_feature_partition_data b (part i ∷ name g ∷ [])
  unfolding load_feature_partition_data
  load_feature-same i a b g e =
      ap (λ v. load_feature_partition_data (lifted v) (part i ∷ name g ∷ [])) (λ k r. e r k)
