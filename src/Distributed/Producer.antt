-- ===== src/Distributed/Producer.antt =====
-- An epoch of sampling: `DistMpSamplingProducer` and the worker's loop of
-- graphlearn_torch/python/distributed/dist_sampling_producer.py, and what the loader of
-- graphlearn_torch/python/distributed/dist_loader.py expects.
use graphlearn_for_pytorch.Prelude.{
  ℕ, zero, suc, ◌+◌, ◌-◌, ◌*◌, ◌/◌, ◌%◌, ◌≡◌, ◌<◌, Bool, true, false, not, ◌&&◌, Option, none, some,
  List, [], ◌∷◌, ◌++◌, map, ◌==◌, if◌then◌else◌, length, replicate, concat,
}
use graphlearn_for_pytorch.Torch.{Torch}
pub mod Ranges
pub mod Epoch

pub record SamplingConfig : Type 0 where
  pub batch_size : ℕ
  pub drop_last : Bool

-- `num_worker_batches[rank] += 1` for the first ranks.
abbrev pub add_one_each : ℕ → List ℕ → List ℕ
add_one_each zero batches = batches
add_one_each (suc n) [] = []
add_one_each (suc n) (b ∷ batches) = (b + 1) ∷ add_one_each n batches

unfoldable pub num_worker_batches : ℕ → ℕ → ℕ → List ℕ
num_worker_batches num_workers input_len batch_size =
    let num_total_complete_batches = input_len / batch_size in
    add_one_each (num_total_complete_batches % num_workers)
      (replicate num_workers (num_total_complete_batches / num_workers))

-- The loop over the ranks; the last worker takes all that is left.
abbrev pub index_ranges : ℕ → ℕ → ℕ → List ℕ → List (ℕ × ℕ)
index_ranges input_len batch_size start [] = []
index_ranges input_len batch_size start (b ∷ []) = (start, input_len) ∷ []
index_ranges input_len batch_size start (b ∷ b' ∷ batches) =
    (start, start + b * batch_size)
    ∷ index_ranges input_len batch_size (start + b * batch_size) (b' ∷ batches)

unfoldable pub get_worker_seeds_ranges : ℕ → ℕ → ℕ → List (ℕ × ℕ)
unfolding num_worker_batches
get_worker_seeds_ranges num_workers input_len batch_size =
    index_ranges input_len batch_size 0 (num_worker_batches num_workers input_len batch_size)

-- `index` is the order of the seeds, shuffled or not.
unfoldable pub get_seeds_indexes : Torch → List ℕ → List (ℕ × ℕ) → List (List ℕ)
get_seeds_indexes torch index ranges = map (λ range. torch.slice index range.0 range.1) ranges

-- `torch.utils.data.DataLoader` without shuffling: the batches of an index.
pub record DataLoader : Type 0 where
  pub batches : ℕ → Bool → List ℕ → List (List ℕ)
  pub kept_law :
      (batch_size : ℕ) (index : List ℕ)
      → 0 < batch_size
      → concat (batches batch_size false index) ≡ index
  pub count_law :
      (batch_size : ℕ) (drop_last : Bool) (index : List ℕ)
      → 0 < batch_size
      → length (batches batch_size drop_last index) ≡ (
          if drop_last
          then length index / batch_size
          else (length index + (batch_size - 1)) / batch_size)

-- A worker samples its batches one after another, each for one message.
abbrev pub sample_all : DataLoader → SamplingConfig → List ℕ → List (List ℕ)
sample_all loader config seeds_index = loader.batches config.batch_size config.drop_last seeds_index

-- The batches of all workers in one epoch.
unfoldable pub produce_all : Torch → DataLoader → SamplingConfig → ℕ → List ℕ → List (List (List ℕ))
unfolding get_worker_seeds_ranges get_seeds_indexes
produce_all torch loader config num_workers index = map (sample_all loader config) (
    get_seeds_indexes torch index
      (get_worker_seeds_ranges num_workers (length index) config.batch_size))

-- `_num_expected` of the loader.
unfoldable pub num_expected : SamplingConfig → ℕ → ℕ
num_expected config input_len =
    if not config.drop_last && not (input_len % config.batch_size == 0)
    then input_len / config.batch_size + 1
    else input_len / config.batch_size
