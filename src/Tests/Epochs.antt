-- ===== src/Tests/Epochs.antt =====
-- A loader of batches, and an epoch of two workers.
use native.Mathlib.Nat.{div-eq_of_lt, add-div_right, div-eq-sub-div}
use graphlearn_for_pytorch.Prelude.{
  sum, ℕ, zero, suc, ◌+◌, ◌-◌, ◌/◌, ◌≡◌, ◌<◌, ◌≤◌, inl, inr, refl, ap, sym, ◌∙◌, Bool, true, false,
  leb, leb→le, Bool-cases, if◌then◌else◌, List, [], ◌∷◌, ◌++◌, map, length, concat, take, drop,
  take-append-drop, length-drop, arith,
}
use graphlearn_for_pytorch.Torch.Concrete.{concrete}
use graphlearn_for_pytorch.Distributed.Producer.{DataLoader, produce_all, num_expected}
use graphlearn_for_pytorch.Prelude.{some, ◌*◌}
use graphlearn_for_pytorch.Distributed.Loader.{
  DistLoader, start_epoch, for_loop, for_loop-start_epoch,
}
use graphlearn_for_pytorch.Distributed.Producer.Epoch.{produce_all-num_expected, concat-produce_all}

-- All batches, or the full ones; the number bounds the steps.
abbrev chunks : ℕ → ℕ → List ℕ → List (List ℕ)
chunks zero m xs = []
chunks (suc n) m [] = []
chunks (suc n) m (x ∷ xs) = take m (x ∷ xs) ∷ chunks n m (drop m (x ∷ xs))

abbrev full_chunks : ℕ → ℕ → List ℕ → List (List ℕ)
full_chunks zero m xs = []
full_chunks (suc n) m xs =
    let rest = full_chunks n m (drop m xs) in if leb m (length xs) then take m xs ∷ rest else []

concat-chunks : (n m : ℕ) (xs : List ℕ) → 0 < m → length xs ≤ n → concat (chunks n m xs) ≡ xs
concat-chunks zero m [] pos h = refl
concat-chunks zero m (x ∷ xs) pos h = absurd (omega (arith, h))
concat-chunks (suc n) m [] pos h = refl
concat-chunks (suc n) m (x ∷ xs) pos h =
    ap (λ rest. take m (x ∷ xs) ++ rest)
      (concat-chunks n m (drop m (x ∷ xs)) pos (omega (arith, length-drop m (x ∷ xs), pos, h)))
    ∙ take-append-drop m (x ∷ xs)

fewer : (k m : ℕ) → 0 < m → ((k + 1 - m) + (m - 1)) / m + 1 ≡ (k + 1 + (m - 1)) / m
fewer k m pos = elim (Bool-cases (leb m (k + 1))) [
  | inl e ↦
      let le : m ≤ k + 1 = leb→le m (k + 1) e in
      let whole : k + 1 + (m - 1) ≡ ((k + 1 - m) + (m - 1)) + m = omega (arith, le, pos) in
      omega (arith, ap (λ n. n / m) whole, add-div_right ((k + 1 - m) + (m - 1)) pos)
  | inr e ↦
      let less : k + 1 < m = above m (k + 1) e in
      let whole : k + 1 + (m - 1) ≡ k + m = omega (arith, pos) in
      let nothing : (k + 1 - m) + (m - 1) ≡ m - 1 = omega (arith, less) in
      omega (
        arith,
        ap (λ n. n / m) whole,
        add-div_right k pos,
        ap (λ n. n / m) nothing,
        div-eq_of_lt {n = k} {m = m} (omega (arith, less)),
        div-eq_of_lt {n = m - 1} {m = m} (omega (arith, pos)),
      )
]
  where
    above : (m k : ℕ) → leb m k ≡ false → k < m
    above m k e = ground arith

length-chunks :
    (n m : ℕ) (xs : List ℕ)
    → 0 < m
    → length xs ≤ n
    → length (chunks n m xs) ≡ (length xs + (m - 1)) / m
length-chunks zero m [] pos h =
    omega (arith, div-eq_of_lt {n = 0 + (m - 1)} {m = m} (omega (arith, pos)))
length-chunks zero m (x ∷ xs) pos h = absurd (omega (arith, h))
length-chunks (suc n) m [] pos h =
    omega (arith, div-eq_of_lt {n = 0 + (m - 1)} {m = m} (omega (arith, pos)))
length-chunks (suc n) m (x ∷ xs) pos h =
    let rest : List ℕ = drop m (x ∷ xs) in
    let size : length rest ≡ length xs + 1 - m = length-drop m (x ∷ xs) ∙ omega arith in
    omega (
      arith,
      length-chunks n m rest pos (omega (arith, size, pos, h)),
      ap (λ k. (k + (m - 1)) / m) size,
      fewer (length xs) m pos,
      ap (λ k. (k + (m - 1)) / m) (one_more (length xs)),
    )
  where
    one_more : (k : ℕ) → suc k ≡ k + 1
    one_more k = omega arith

length-full_chunks :
    (n m : ℕ) (xs : List ℕ) → 0 < m → length xs ≤ n → length (full_chunks n m xs) ≡ length xs / m
length-full_chunks zero m xs pos h =
    sym (div-eq_of_lt {n = length xs} {m = m} (omega (arith, h, pos)))
length-full_chunks (suc n) m xs pos h = elim (Bool-cases (leb m (length xs))) [
  | inl e ↦
      let size : length (drop m xs) ≡ length xs - m = length-drop m xs in
      rw e (
        omega (
          arith,
          length-full_chunks n m (drop m xs) pos (omega (arith, size, pos, h)),
          ap (λ k. k / m) size,
          div-eq-sub-div pos (leb→le m (length xs) e),
        ))
  | inr e ↦ rw e (sym (div-eq_of_lt {n = length xs} {m = m} (above m (length xs) e)))
]
  where
    above : (m k : ℕ) → leb m k ≡ false → k < m
    above m k e = ground arith

abbrev loader_batches : ℕ → Bool → List ℕ → List (List ℕ)
loader_batches m true xs = full_chunks (length xs) m xs
loader_batches m false xs = chunks (length xs) m xs

a_loader : DataLoader
a_loader = record {
  batches = loader_batches;
  kept_law = λ m xs pos. concat-chunks (length xs) m xs pos (omega arith);
  count_law = λ m drop_last xs pos. counts m drop_last xs pos;
}
  where
    counts :
        (m : ℕ) (drop_last : Bool) (xs : List ℕ)
        → 0 < m
        → length (loader_batches m drop_last xs)
          ≡ (if drop_last then length xs / m else (length xs + (m - 1)) / m)
    counts m true xs pos = length-full_chunks (length xs) m xs pos (omega arith)
    counts m false xs pos = length-chunks (length xs) m xs pos (omega arith)

abbrev seven : List ℕ
seven = 4 ∷ 1 ∷ 6 ∷ 0 ∷ 3 ∷ 5 ∷ 2 ∷ []

produce_all-num_expected_example :
    sum (
      map length
        (produce_all concrete a_loader (record { batch_size = 2; drop_last = false }) 2 seven))
    ≡ num_expected (record { batch_size = 2; drop_last = false }) 7
produce_all-num_expected_example =
    produce_all-num_expected concrete a_loader (record { batch_size = 2; drop_last = false }) 2
      seven (omega arith) (omega arith)

concat-produce_all_example :
    concat (
      map concat
        (produce_all concrete a_loader (record { batch_size = 2; drop_last = false }) 2 seven))
    ≡ seven
concat-produce_all_example =
    concat-produce_all concrete a_loader (record { batch_size = 2; drop_last = false }) 2 seven
      (omega arith) (omega arith) refl

-- The third epoch's loader, of which only the channel and the expected number matter.
abbrev two_expected : DistLoader ℕ
two_expected = record { num_expected = 2; num_recv = 2; channel = [] }

for_loop-start_epoch_example :
    for_loop (λ n. some (n * 10)) 3 (start_epoch (λ n. some (n * 10)) two_expected (8 ∷ 5 ∷ []))
    ≡ some (80 ∷ 50 ∷ [], two_expected)
for_loop-start_epoch_example =
    for_loop-start_epoch (λ n. some (n * 10)) two_expected (8 ∷ 5 ∷ []) (80 ∷ 50 ∷ []) refl refl
      refl
