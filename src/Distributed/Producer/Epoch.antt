-- ===== src/Distributed/Producer/Epoch.antt =====
-- What all workers sample in an epoch.
use native.Mathlib.Nat.{div-add-mod, mod-lt, mul-add-div_right, div-eq_of_lt, add-div_right}
use graphlearn_for_pytorch.Prelude.{
  sum, ℕ, ◌+◌, ◌-◌, ◌*◌, ◌/◌, ◌%◌, ◌≡◌, ◌<◌, inl, inr, refl, ap, ◌∙◌, Bool, true, false, not, ◌&&◌,
  ◌==◌, ==_iff, Bool-cases, if◌then◌else◌, List, [], ◌∷◌, map, length, concat, drop, min,
  length-take, length-drop, arith,
}
use graphlearn_for_pytorch.Torch.{Torch}
use graphlearn_for_pytorch.Distributed.Producer.{
  SamplingConfig, num_worker_batches, index_ranges, get_worker_seeds_ranges, get_seeds_indexes,
  DataLoader, sample_all, produce_all, num_expected,
}
use graphlearn_for_pytorch.Distributed.Producer.Ranges.{
  sum-num_worker_batches, length-num_worker_batches, concat-ranges,
}

-- The batches of `n` seeds.
abbrev count : Bool → ℕ → ℕ → ℕ
count drop_last batch_size n =
    if drop_last then n / batch_size else (n + (batch_size - 1)) / batch_size

count-add :
    (drop_last : Bool) (m b r : ℕ) → 0 < m → count drop_last m (b * m + r) ≡ b + count drop_last m r
count-add true m b r pos = mul-add-div_right pos b r
count-add false m b r pos = ap (λ n. n / m) (omega arith) ∙ mul-add-div_right pos b (r + (m - 1))

count_whole : (drop_last : Bool) (m b : ℕ) → 0 < m → count drop_last m (b * m) ≡ b
count_whole drop_last m b pos =
    ap (count drop_last m) (omega arith) ∙ count-add drop_last m b 0 pos ∙ none_left drop_last
  where
    none_left : (drop_last : Bool) → b + count drop_last m 0 ≡ b
    none_left true = omega (arith, div-eq_of_lt {n = 0} pos)
    none_left false = omega (arith, div-eq_of_lt {n = 0 + (m - 1)} {m = m} (omega (arith, pos)))

-- Seeds that do not make a batch make one more if they are kept.
count_rest :
    (drop_last : Bool) (m r q : ℕ)
    → 0 < m
    → r < m
    → q + count drop_last m r ≡ (if not drop_last && not (r == 0) then q + 1 else q)
count_rest true m r q pos lt = omega (arith, div-eq_of_lt {n = r} lt)
count_rest false m r q pos lt = elim (Bool-cases (r == 0)) [
  | inl e ↦
      let same : r ≡ 0 = (==_iff r 0).0 e in
      rw e (omega (arith, div-eq_of_lt {n = r + (m - 1)} {m = m} (omega (arith, same, pos))))
  | inr e ↦
      let some_left : 0 < r = not_zero r e in
      let split : r + (m - 1) ≡ (r - 1) + m = omega (arith, some_left, pos) in
      rw e (
        omega (
          arith,
          ap (λ n. n / m) split,
          add-div_right (r - 1) pos,
          div-eq_of_lt {n = r - 1} {m = m} (omega (arith, lt)),
        ))
]
  where
    not_zero : (r : ℕ) → (r == 0) ≡ false → 0 < r
    not_zero r e = ground arith

module _ (torch : Torch) (loader : DataLoader) (config : SamplingConfig) (index : List ℕ)
    (pos : 0 < config.batch_size) where
  abbrev epoch : List (ℕ × ℕ) → List (List (List ℕ))
  epoch ranges = map (sample_all loader config) (get_seeds_indexes torch index ranges)

  counted :
      (seeds : List ℕ)
      → length (sample_all loader config seeds)
        ≡ count config.drop_last config.batch_size (length seeds)
  counted seeds = loader.count_law config.batch_size config.drop_last seeds pos

  length-slice :
      (start end : ℕ)
      → length (torch.slice index start end) ≡ min (end - start) (length index - start)
  length-slice start end =
      ap length (torch.slice_law index start end)
      ∙ length-take (end - start) (drop start index)
      ∙ ap (min (end - start)) (length-drop start index)

  distrib : (a b m : ℕ) → (a + b) * m ≡ a * m + b * m
  distrib a b m = omega arith

  total_batches :
      (start b rest : ℕ) (batches : List ℕ)
      → start + sum (b ∷ batches) * config.batch_size + rest ≡ length index
      → sum (map length (epoch (index_ranges (length index) config.batch_size start (b ∷ batches))))
        ≡ sum (b ∷ batches) + count config.drop_last config.batch_size rest
  unfolding get_seeds_indexes
  total_batches start b rest [] fits =
      let m : ℕ = config.batch_size in
      let whole : (b + 0) * m ≡ b * m = ap (λ k. k * m) (omega arith) in
      let size : length (torch.slice index start (length index)) ≡ b * m + rest =
        length-slice start (length index) ∙ omega (arith, fits, whole) in
      omega (
        arith,
        counted (torch.slice index start (length index)),
        ap (count config.drop_last m) size,
        count-add config.drop_last m b rest pos,
      )
  total_batches start b rest (b' ∷ batches) fits =
      let m : ℕ = config.batch_size in
      let more : ℕ = b' + sum batches in
      let apart : (b + more) * m ≡ b * m + more * m = distrib b more m in
      let size : length (torch.slice index start (start + b * m)) ≡ b * m =
        length-slice start (start + b * m) ∙ omega (arith, fits, apart) in
      omega (
        arith,
        counted (torch.slice index start (start + b * m)),
        ap (count config.drop_last m) size,
        count_whole config.drop_last m b pos,
        total_batches (start + b * m) b' rest batches (omega (arith, fits, apart)),
      )

  -- With a worker, an epoch samples as many batches as the loader expects messages.
  epoch_size :
      (batches : List ℕ)
      → 0 < length batches
      → sum batches ≡ length index / config.batch_size
      → sum (map length (epoch (index_ranges (length index) config.batch_size 0 batches)))
        ≡ num_expected config (length index)
  unfolding num_expected
  epoch_size [] some_worker all = absurd (omega (arith, some_worker))
  epoch_size (b ∷ batches) some_worker all =
      let m : ℕ = config.batch_size in
      let len : ℕ = length index in
      let fits : 0 + sum (b ∷ batches) * m + len % m ≡ len =
        omega (arith, ap (λ k. k * m) all, div-add-mod len m) in
      total_batches 0 b (len % m) batches fits
      ∙ ap (λ k. k + count config.drop_last m (len % m)) all
      ∙ count_rest config.drop_last m (len % m) (len / m) pos (mod-lt len pos)

-- With a worker and a batch size that is not zero, the workers send as many messages in an epoch as
-- the loader waits for.
pub produce_all-num_expected :
    (torch : Torch) (loader : DataLoader) (config : SamplingConfig) (num_workers : ℕ)
    (index : List ℕ)
    → 0 < num_workers
    → 0 < config.batch_size
    → sum (map length (produce_all torch loader config num_workers index))
      ≡ num_expected config (length index)
unfolding produce_all get_worker_seeds_ranges
produce_all-num_expected torch loader config num_workers index workers pos =
    epoch_size torch loader config index pos
      (num_worker_batches num_workers (length index) config.batch_size)
      (omega
        (arith, length-num_worker_batches num_workers (length index) config.batch_size, workers))
      (sum-num_worker_batches num_workers (length index) config.batch_size workers)

-- With a worker and a batch size that is not zero, and without `drop_last`, the batches of all
-- workers, one after another, are the seeds of the index in its order, each once.
pub concat-produce_all :
    (torch : Torch) (loader : DataLoader) (config : SamplingConfig) (num_workers : ℕ)
    (index : List ℕ)
    → 0 < num_workers
    → 0 < config.batch_size
    → config.drop_last ≡ false
    → concat (map concat (produce_all torch loader config num_workers index)) ≡ index
unfolding produce_all get_worker_seeds_ranges
concat-produce_all torch loader config num_workers index workers pos kept =
    by_batches (num_worker_batches num_workers (length index) config.batch_size) (
      omega
        (arith, length-num_worker_batches num_workers (length index) config.batch_size, workers))
  where
    each : (seedss : List (List ℕ)) → map concat (map (sample_all loader config) seedss) ≡ seedss
    each [] = refl
    each (seeds ∷ seedss) = rw (kept, loader.kept_law config.batch_size seeds pos, each seedss) refl

    by_batches :
        (batches : List ℕ)
        → 0 < length batches
        → concat (
            map concat (
              map (sample_all loader config) (
                get_seeds_indexes torch index
                  (index_ranges (length index) config.batch_size 0 batches))))
          ≡ index
    by_batches [] h = absurd (omega (arith, h))
    by_batches (b ∷ batches) h =
        ap concat (
          each (
            get_seeds_indexes torch index
              (index_ranges (length index) config.batch_size 0 (b ∷ batches))))
        ∙ concat-ranges torch index config.batch_size 0 b batches
