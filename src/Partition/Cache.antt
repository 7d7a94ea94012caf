-- ===== src/Partition/Cache.antt =====
-- `cat_feature_cache` of graphlearn_torch/python/partition/base.py: the features of a partition
-- behind those that it caches. The cache's share, a float in the source, is kept as a fraction.
pub mod Lookup
use native.Mathlib.Nat.{zero-add}
use graphlearn_for_pytorch.Prelude.{
  ℕ, zero, suc, ◌+◌, ◌-◌, ◌<◌, ◌≤◌, ◌≡◌, ◌≢◌, refl, sym, ap, ◌∙◌, Bool, true, false, Option, none,
  some, List, [], ◌∷◌, ◌++◌, map, arith, ltb, if◌then◌else◌, inl, inr, ◌⊎◌, Bool-cases, length,
  get_elem?, replicate, range, range_from, ◌>>=◌, length-range_from, length-replicate, length-map,
  get_elem?-range_from, lt-length_of_get, get_elem?-append_left, get_elem?-append_right,
}
use graphlearn_for_pytorch.Torch.{
  Torch, IsPut, IsMax, AllBelow, contains, filled, filled-total, get_elem?-filled,
}
use graphlearn_for_pytorch.Typing.{FeaturePartitionData, PartitionBook}
use graphlearn_for_pytorch.Utils.Tensor.{id2idx}

-- A fraction: numerator and denominator.
abbrev pub Ratio : Type 0
Ratio = ℕ × ℕ

pub record Concatenated (Row : Type 0) : Type 0 where
  pub cache_ratio : Ratio
  pub new_feats : List Row
  pub nid2idx : List ℕ
  pub new_feat_pb : PartitionBook

abbrev max2 : ℕ → ℕ → ℕ
max2 a b = if ltb a b then b else a

module _ (torch : Torch) {Row : Type 0} where
  -- The branch in which both parts of a cache are there.
  unfoldable pub cat_with_cache :
      ℕ → List Row → List ℕ → List Row → List ℕ → PartitionBook → Option (Concatenated Row)
  cat_with_cache partition_idx feats ids cache_feats cache_ids feat_pb = do
    let cached = length cache_ids
    new_feats ← torch.cat (cache_feats ∷ feats ∷ [])
    max_cache ← torch.max cache_ids
    max_own ← torch.max ids
    let max_id = max2 max_cache max_own
    own ←
        torch.index_put (torch.zeros (max_id + 1)) ids
          (map (λ i. i + cached) (torch.arange (length ids)))
    nid2idx ← torch.index_put own cache_ids (torch.arange cached)
    new_feat_pb ← torch.index_fill feat_pb cache_ids partition_idx
    some (record {
      cache_ratio = (cached, cached + length ids);
      new_feats = new_feats;
      nid2idx = nid2idx;
      new_feat_pb = new_feat_pb;
    })

  -- No cache: the partition as it is.
  unfoldable pub without_cache : List Row → List ℕ → PartitionBook → Option (Concatenated Row)
  without_cache feats ids feat_pb = do
    mapping ← id2idx torch ids
    some (record {
      cache_ratio = (0, 1);
      new_feats = feats;
      nid2idx = mapping;
      new_feat_pb = feat_pb;
    })

  -- `if cache_feats is None or cache_ids is None`
  unfoldable pub cat_feature_cache :
      ℕ → FeaturePartitionData Row → PartitionBook → Option (Concatenated Row)
  unfolding cat_with_cache without_cache
  cat_feature_cache partition_idx feat_pdata feat_pb = elim feat_pdata.cache_feats [
    | none ↦ without_cache feat_pdata.feats feat_pdata.ids feat_pb
    | some cache_feats ↦ elim feat_pdata.cache_ids [
      | none ↦ without_cache feat_pdata.feats feat_pdata.ids feat_pb
      | some cache_ids ↦
          cat_with_cache partition_idx feat_pdata.feats feat_pdata.ids cache_feats cache_ids feat_pb
    ]
  ]
