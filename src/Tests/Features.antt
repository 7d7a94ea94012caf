-- ===== src/Tests/Features.antt =====
-- Features of six ids on two partitions: the row of an id is its square.
use graphlearn_for_pytorch.Prelude.{
  ℕ, zero, suc, ◌*◌, ◌/◌, ◌≡◌, refl, Option, none, some, List, [], ◌∷◌, ◌++◌, map, arith, some_inj,
  length, get_elem?, concat,
}
use graphlearn_for_pytorch.Torch.Concrete.{concrete}
use graphlearn_for_pytorch.Typing.{FeaturePartitionData}
use graphlearn_for_pytorch.Utils.Tensor.{id2idx, id2idx-points_back}
use graphlearn_for_pytorch.Partition.Cache.{Concatenated, cat_feature_cache}
use graphlearn_for_pytorch.Partition.Cache.Lookup.{Finds, cat_feature_cache-Finds_rows}
use graphlearn_for_pytorch.Data.Feature.{
  Feature, cpu_get, row_at, split, device_blocks, concat-device_blocks,
}
use graphlearn_for_pytorch.Distributed.Feature.{async_get}
use graphlearn_for_pytorch.Distributed.Feature.Stitched.{async_get-eq-map}

abbrev square : ℕ → ℕ
square id = id * id

abbrev book : List ℕ
book = 0 ∷ 1 ∷ 0 ∷ 1 ∷ []

abbrev store : ℕ → Feature ℕ
store zero = record { feature_tensor = 0 ∷ 4 ∷ []; id2index = some (0 ∷ 0 ∷ 1 ∷ []) }
store (suc p) = record { feature_tensor = 0 ∷ 1 ∷ 0 ∷ 9 ∷ []; id2index = none }

store_holds :
    (id pidx : ℕ) → get_elem? book id ≡ some pidx → row_at (store pidx) id ≡ some (square id)
store_holds zero zero e = refl
store_holds zero (suc p) e = ground arith
store_holds (suc zero) zero e = ground arith
store_holds (suc zero) (suc p) e = refl
store_holds (suc (suc zero)) zero e = refl
store_holds (suc (suc zero)) (suc p) e = ground arith
store_holds (suc (suc (suc zero))) zero e = ground arith
store_holds (suc (suc (suc zero))) (suc p) e = refl
store_holds (suc (suc (suc (suc n)))) pidx e = ground arith

abbrev wanted : List ℕ
wanted = 3 ∷ 0 ∷ 2 ∷ 3 ∷ 1 ∷ []

async_get-eq-map_example :
    async_get concrete
      (λ pidx is. cpu_get concrete (store pidx) is)
      0
      (record { num_partitions = 2; partition_idx = 1; local_feature = store 1; feature_pb = book })
      wanted
    ≡ some (map square wanted)
async_get-eq-map_example =
    async_get-eq-map concrete square store 0 2 1 book wanted store_holds (omega arith) (omega arith)

abbrev six : List ℕ
six = 1 ∷ 2 ∷ 3 ∷ 4 ∷ 5 ∷ 6 ∷ []

concat-device_blocks_example :
    concat
        (device_blocks concrete (split concrete six 5).0 (length (split concrete six 5).0 / 2) 0 2)
      ++ (split concrete six 5).1
    ≡ six
concat-device_blocks_example = concat-device_blocks concrete six 5 1

id2idx-points_back_example :
    (mapping : List ℕ) × (id2idx concrete (4 ∷ 2 ∷ 4 ∷ []) ≡ some mapping)
    × ((k id : ℕ)
        → get_elem? {A = ℕ} (4 ∷ 2 ∷ 4 ∷ []) k ≡ some id
        → (i : ℕ) × (get_elem? mapping id ≡ some i)
          × (get_elem? {A = ℕ} (4 ∷ 2 ∷ 4 ∷ []) i ≡ some id))
id2idx-points_back_example = id2idx-points_back concrete (4 ∷ 2 ∷ 4 ∷ []) (omega arith)

abbrev cached_part : FeaturePartitionData ℕ
cached_part = record {
  feats = 9 ∷ 1 ∷ [];
  ids = 3 ∷ 1 ∷ [];
  cache_feats = some (4 ∷ 1 ∷ []);
  cache_ids = some (2 ∷ 1 ∷ []);
}

abbrev square_row : ℕ → Option ℕ
square_row id = some (id * id)

own_rows :
    (k id : ℕ)
    → get_elem? {A = ℕ} (3 ∷ 1 ∷ []) k ≡ some id
    → get_elem? {A = ℕ} (9 ∷ 1 ∷ []) k ≡ square_row id
own_rows zero id e = rw (← some_inj e)
own_rows (suc zero) id e = rw (← some_inj e)
own_rows (suc (suc k)) id e = cc

cached_rows :
    (k id : ℕ)
    → get_elem? {A = ℕ} (2 ∷ 1 ∷ []) k ≡ some id
    → get_elem? {A = ℕ} (4 ∷ 1 ∷ []) k ≡ square_row id
cached_rows zero id e = rw (← some_inj e)
cached_rows (suc zero) id e = rw (← some_inj e)
cached_rows (suc (suc k)) id e = cc

cat_feature_cache-Finds_rows_example :
    (c : Concatenated ℕ) × (cat_feature_cache concrete 1 cached_part book ≡ some c)
    × Finds square_row 1 (3 ∷ 1 ∷ []) (2 ∷ 1 ∷ []) book c
cat_feature_cache-Finds_rows_example =
    cat_feature_cache-Finds_rows concrete square_row 1 (9 ∷ 1 ∷ []) (3 ∷ 1 ∷ []) (4 ∷ 1 ∷ [])
      (2 ∷ 1 ∷ []) book (omega arith) (omega arith) refl own_rows cached_rows (omega arith)
