-- ===== src/Distributed/Producer/Ranges.antt =====
-- The ranges of seeds that the workers of an epoch get.
use native.Mathlib.Nat.{div-add-mod, mod-lt}
use mathlib.Core.List.{append-nil}
use graphlearn_for_pytorch.Prelude.{
  sum, ℕ, zero, suc, ◌+◌, ◌-◌, ◌*◌, ◌/◌, ◌%◌, ◌≡◌, ◌<◌, ◌≤◌, refl, ap, ◌∙◌, List, [], ◌∷◌, length,
  replicate, concat, take, drop, length-drop, drop-add, take-append-drop, take_all,
  length-replicate, arith,
}
use graphlearn_for_pytorch.Torch.{Torch}
use graphlearn_for_pytorch.Distributed.Producer.{
  add_one_each, num_worker_batches, index_ranges, get_seeds_indexes,
}

sum-add_one_each : (n : ℕ) (bs : List ℕ) → n ≤ length bs → sum (add_one_each n bs) ≡ n + sum bs
sum-add_one_each zero bs h = omega arith
sum-add_one_each (suc n) [] h = absurd (omega (arith, h))
sum-add_one_each (suc n) (b ∷ bs) h = omega (arith, sum-add_one_each n bs (omega (arith, h)))

pub length-add_one_each : (n : ℕ) (bs : List ℕ) → length (add_one_each n bs) ≡ length bs
length-add_one_each zero bs = refl
length-add_one_each (suc n) [] = refl
length-add_one_each (suc n) (b ∷ bs) = ap suc (length-add_one_each n bs)

sum-replicate : (n q : ℕ) → sum (replicate n q) ≡ n * q
sum-replicate zero q = omega arith
sum-replicate (suc n) q = omega (arith, sum-replicate n q)

-- The workers have all complete batches together.
pub sum-num_worker_batches :
    (num_workers input_len batch_size : ℕ)
    → 0 < num_workers
    → sum (num_worker_batches num_workers input_len batch_size) ≡ input_len / batch_size
unfolding num_worker_batches
sum-num_worker_batches w len bs pos =
    let t : ℕ = len / bs in
    omega (
      arith,
      sum-add_one_each (t % w) (replicate w (t / w))
          (omega (arith, length-replicate w (t / w), mod-lt t pos)),
      sum-replicate w (t / w),
      div-add-mod t w,
    )

pub length-num_worker_batches :
    (num_workers input_len batch_size : ℕ)
    → length (num_worker_batches num_workers input_len batch_size) ≡ num_workers
unfolding num_worker_batches
length-num_worker_batches w len bs =
    length-add_one_each ((len / bs) % w) (replicate w ((len / bs) / w))
    ∙ length-replicate w ((len / bs) / w)

module _ (torch : Torch) (index : List ℕ) (batch_size : ℕ) where
  pub taken : (start n : ℕ) → torch.slice index start (start + n) ≡ take n (drop start index)
  taken start n =
      torch.slice_law index start (start + n) ∙ ap (λ k. take k (drop start index)) (omega arith)

  -- The ranges from a start on have the rest of the index, in its order.
  pub concat-ranges :
      (start b : ℕ) (batches : List ℕ)
      → concat (
          get_seeds_indexes torch index
            (index_ranges (length index) batch_size start (b ∷ batches)))
        ≡ drop start index
  unfolding get_seeds_indexes
  concat-ranges start b [] =
      append-nil (torch.slice index start (length index))
      ∙ torch.slice_law index start (length index)
      ∙ take_all (length index - start) (drop start index) (omega (arith, length-drop start index))
  concat-ranges start b (b' ∷ batches) =
      rw
        (
          taken start (b * batch_size),
          concat-ranges (start + b * batch_size) b' batches,
          drop-add start (b * batch_size) index,
        )
        (take-append-drop (b * batch_size) (drop start index))
