-- ===== src/Partition/Cache/Lookup.antt =====
-- A lookup in the concatenated features finds the row of the id that is asked for.
use native.Mathlib.Nat.{zero-add}
use graphlearn_for_pytorch.Prelude.{
  ℕ, zero, suc, ◌+◌, ◌<◌, ◌≤◌, ◌≡◌, ◌≢◌, refl, sym, ap, ◌∙◌, Option, some, List, ◌++◌, map, arith,
  if◌then◌else◌, length, get_elem?, replicate, range, range_from, length-range_from,
  length-replicate, length-map, get_elem?-range_from, lt-length_of_get, get_elem?-append_left,
  get_elem?-append_right,
}
use mathlib.Core.List.{append-nil}
use graphlearn_for_pytorch.Torch.{
  Torch, AllBelow, contains, filled-total, get_elem?-filled, AllBelow-mono,
}
use graphlearn_for_pytorch.Typing.{PartitionBook}
use graphlearn_for_pytorch.Partition.Cache.{Concatenated, cat_with_cache, cat_feature_cache, max2}

get_elem?-shifted :
    (s n c k : ℕ) → k < n → get_elem? (map (λ i. i + c) (range_from s n)) k ≡ some (s + k + c)
get_elem?-shifted s zero c k h = elim h [ ]
get_elem?-shifted s (suc n) c zero h = ap some (omega arith)
get_elem?-shifted s (suc n) c (suc k) h =
    get_elem?-shifted (suc s) n c k (omega arith) ∙ ap some (omega arith)

-- What a lookup finds in the concatenated features.
pub record Finds {Row : Type 0} (F : ℕ → Option Row) (partition_idx : ℕ) (ids cache_ids : List ℕ)
    (feat_pb : PartitionBook) (c : Concatenated Row) : Type 0 where
  pub cached :
      (k id : ℕ)
      → get_elem? cache_ids k ≡ some id
      → (i : ℕ) × (i < length cache_ids)
        × (get_elem? c.nid2idx id ≡ some i)
        × (get_elem? c.new_feats i ≡ F id)
  pub own :
      (k id : ℕ)
      → get_elem? ids k ≡ some id
      → ((k : ℕ) → get_elem? cache_ids k ≢ some id)
      → (i : ℕ) × (length cache_ids ≤ i)
        × (get_elem? c.nid2idx id ≡ some i)
        × (get_elem? c.new_feats i ≡ F id)
  pub book :
      (id : ℕ)
      → get_elem? c.new_feat_pb id
        ≡ (if contains cache_ids id then some partition_idx else get_elem? feat_pb id)

-- `F id` is the row that belongs to an id.
module _ (torch : Torch) {Row : Type 0} (F : ℕ → Option Row) (partition_idx : ℕ) (feats : List Row)
    (ids : List ℕ) (cache_feats : List Row) (cache_ids : List ℕ) (feat_pb : PartitionBook)
    (some_id : 0 < length ids) (some_cached : 0 < length cache_ids)
    (same_cache : length cache_feats ≡ length cache_ids)
    (rows : (k id : ℕ) → get_elem? ids k ≡ some id → get_elem? feats k ≡ F id)
    (cached_rows : (k id : ℕ) → get_elem? cache_ids k ≡ some id → get_elem? cache_feats k ≡ F id)
    (in_book : AllBelow (length feat_pb) cache_ids) where
  cat_with_cache_lem :
      (c : Concatenated Row) × (cat_with_cache torch partition_idx feats ids cache_feats cache_ids
          feat_pb
        ≡ some c)
      × Finds F partition_idx ids cache_ids feat_pb c
  unfolding cat_with_cache
  cat_with_cache_lem =
      let n = length cache_ids in
      let (mc, got_c, top_c) = torch.max_law cache_ids some_cached in
      let (mo, got_o, top_o) = torch.max_law ids some_id in
      let m = max2 mc mo in
      let start = replicate (m + 1) 0 in
      let size : length {A = ℕ} start ≡ suc m = omega (arith, length-replicate {A = ℕ} (m + 1) 0) in
      let shifted = map (λ i. i + n) (range (length ids)) in
      let (own, put_o, is_o) =
        torch.index_put_law start ids shifted
          (sym (length-map (range (length ids)) _ ∙ length-range_from 0 (length ids)))
          (rw size (AllBelow-mono (suc mo) (suc m) ids (ground arith) top_o.bound)) in
      let (mapping, put_c, is_c) =
        torch.index_put_law own cache_ids (range n) (sym (length-range_from 0 n)) (
          rw (is_o.size, size)
            (AllBelow-mono (suc mc) (suc m) cache_ids (ground arith) top_c.bound)) in
      let (book, wrote) = filled-total feat_pb cache_ids partition_idx in_book in
      (
        record {
          cache_ratio = (n, n + length ids);
          new_feats = cache_feats ++ feats;
          nid2idx = mapping;
          new_feat_pb = book;
        },
        simp (
          torch.cat_law, append-nil, got_c, got_o, torch.zeros_law, torch.arange_law, put_o, put_c,
          torch.index_fill_law, wrote,
        ),
        record {
          cached = λ k id at.
              let (k', at', same) = is_c.written k id at in
              let lt = lt-length_of_get cache_ids k' id at' in
              (
                k',
                lt,
                same ∙ get_elem?-range_from 0 n k' lt ∙ rw zero-add refl,
                get_elem?-append_left cache_feats feats k' (omega arith) ∙ cached_rows k' id at',
              );
          own = λ k id at absent.
              let (k', at', same) = is_o.written k id at in
              let lt = lt-length_of_get ids k' id at' in
              let e : k' + n ≡ length cache_feats + k' = omega arith in
              (
                k' + n,
                omega arith,
                is_c.kept id absent
                    ∙ same
                    ∙ get_elem?-shifted 0 (length ids) n k' lt
                    ∙ rw zero-add refl,
                rw e (get_elem?-append_right cache_feats feats k') ∙ rows k' id at',
              );
          book = λ id. get_elem?-filled feat_pb cache_ids partition_idx book id wrote;
        },
      )

  -- For a partition with a non-empty cache, where each feature row belongs to its id and the
  -- cached ids are in the book: `cat_feature_cache` returns, a cached id is mapped to its row among
  -- the cached rows in front, an own id that is not cached to its row among the rows behind them,
  -- and the new book has this partition for each cached id and the old entry for any other.
  pub cat_feature_cache-Finds_rows :
      (c : Concatenated Row) × (cat_feature_cache torch partition_idx
          (record {
            feats = feats;
            ids = ids;
            cache_feats = some cache_feats;
            cache_ids = some cache_ids;
          })
          feat_pb
        ≡ some c)
      × Finds F partition_idx ids cache_ids feat_pb c
  unfolding cat_feature_cache
  cat_feature_cache-Finds_rows = cat_with_cache_lem
