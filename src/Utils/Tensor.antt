-- ===== src/Utils/Tensor.antt =====
-- `id2idx` of graphlearn_torch/python/utils/tensor.py.
use graphlearn_for_pytorch.Prelude.{
  ℕ, suc, ◌+◌, ◌<◌, ◌≡◌, refl, sym, ◌∙◌, Option, some, List, arith, length, get_elem?, replicate,
  range, ◌>>=◌, length-range_from, length-replicate, get_elem?-range_from, lt-length_of_get,
}
use native.Mathlib.Nat.{zero-add}
use graphlearn_for_pytorch.Torch.{Torch}

module _ (torch : Torch) where
  unfoldable pub id2idx : List ℕ → Option (List ℕ)
  id2idx ids = do
    max_id ← torch.max ids
    torch.index_put (torch.zeros (max_id + 1)) ids (torch.arange (length ids))

  -- For a tensor with an item, the mapping exists, and it leads each id to a position at which
  -- that id stands, also where ids repeat.
  pub id2idx-points_back :
      (ids : List ℕ)
      → 0 < length ids
      → (mapping : List ℕ) × (id2idx ids ≡ some mapping)
        × ((k id : ℕ)
            → get_elem? ids k ≡ some id
            → (i : ℕ) × (get_elem? mapping id ≡ some i) × (get_elem? ids i ≡ some id))
  unfolding id2idx
  id2idx-points_back ids h =
      let (m, got, top) = torch.max_law ids h in
      let size : length {A = ℕ} (replicate (m + 1) 0) ≡ suc m =
        omega (arith, length-replicate {A = ℕ} (m + 1) 0) in
      let (mapping, put, is_put) =
        torch.index_put_law (replicate (m + 1) 0) ids (range (length ids))
          (sym (length-range_from 0 (length ids))) (rw size top.bound) in
      (
        mapping,
        simp (got, torch.zeros_law, torch.arange_law, put),
        λ k id at.
            let (k', at', same) = is_put.written k id at in
            let there = get_elem?-range_from 0 (length ids) k' (lt-length_of_get ids k' id at') in
            (k', same ∙ there ∙ rw zero-add refl, at'),
      )
