-- ===== src/Partition/Collect.antt =====
-- The loop of `_partition_graph` that joins the pieces of each part and writes the partition book.
use graphlearn_for_pytorch.Prelude.{
  ℕ, zero, suc, ◌+◌, ◌-◌, ◌*◌, ◌≤◌, ◌<◌, min, ◌≡◌, refl, ap, some, List, [], ◌∷◌, ◌++◌, map, arith,
  ◌==◌, length, take, drop, concat, length-drop, drop-add, drop_all, Bool-cases, inl, inr,
}
use graphlearn_for_pytorch.Torch.{Torch, joined, select}
use graphlearn_for_pytorch.Typing.{GraphPartitionData}
use graphlearn_for_pytorch.Partition.Base.{cat_part}
use graphlearn_for_pytorch.Partition.Chunks.{in_part, part_of, pieces}

-- Selecting a part of the first `k` edges and of the others.
pub select_split :
    (k p : ℕ) (xs parts : List ℕ)
    → length xs ≡ length parts
    → select (take k xs) (in_part p (take k parts)) ++ select (drop k xs) (in_part p (drop k parts))
      ≡ select xs (in_part p parts)
select_split zero p xs parts h = refl
select_split (suc k) p [] [] h = refl
select_split (suc k) p [] (q ∷ parts) h = absurd (omega arith)
select_split (suc k) p (x ∷ xs) [] h = absurd (omega arith)
select_split (suc k) p (x ∷ xs) (q ∷ parts) h =
    let ih = select_split k p xs parts (omega arith) in
    elim (Bool-cases (q == p)) [ inl e ↦ rw e (ap (λ l. x ∷ l) ih) | inr e ↦ rw e ih ]

module _ (rows cols eids parts : List ℕ) (chunk_size : ℕ) where
  abbrev chunk_len : ℕ → ℕ
  chunk_len start = min (length rows) (start + chunk_size) - start

  -- What the chunks select of one column.
  abbrev columns : List ℕ → ℕ → ℕ → ℕ → List (List ℕ)
  columns xs zero start p = []
  columns xs (suc rounds) start p =
      let k = chunk_len start in
      select (take k (drop start xs)) (in_part p (take k (drop start parts)))
      ∷ columns xs rounds (start + k) p

  map-rows :
      (r s p : ℕ)
      → map
          (λ (d : GraphPartitionData). d.edge_index.0)
          (pieces rows cols eids parts chunk_size r s p)
        ≡ columns rows r s p
  map-rows zero s p = refl
  map-rows (suc r) s p = rw (map-rows r (s + chunk_len s) p)

  map-cols :
      (r s p : ℕ)
      → map
          (λ (d : GraphPartitionData). d.edge_index.1)
          (pieces rows cols eids parts chunk_size r s p)
        ≡ columns cols r s p
  map-cols zero s p = refl
  map-cols (suc r) s p = rw (map-cols r (s + chunk_len s) p)

  map-eids :
      (r s p : ℕ)
      → map (λ (d : GraphPartitionData). d.eids) (pieces rows cols eids parts chunk_size r s p)
        ≡ columns eids r s p
  map-eids zero s p = refl
  map-eids (suc r) s p = rw (map-eids r (s + chunk_len s) p)

  -- Enough chunks select all that is left of a column.
  module _ (xs : List ℕ) (same : length xs ≡ length rows)
      (same_parts : length parts ≡ length rows) where
    concat-columns :
        (r s p : ℕ)
        → s ≤ length rows
        → length rows ≤ s + r * chunk_size
        → concat (columns xs r s p) ≡ select (drop s xs) (in_part p (drop s parts))
    concat-columns zero s p le enough = rw (drop_all s xs (omega arith))
    concat-columns (suc r) s p le enough =
        let k = chunk_len s in
        let split =
          select_split k p (drop s xs) (drop s parts)
            (omega (arith, length-drop s xs, length-drop s parts)) in
        rw (
          concat-columns r (s + k) p (omega arith) (omega arith),
          drop-add s k xs,
          drop-add s k parts,
          ← split,
        )

    joined-columns :
        (r p : ℕ)
        → 0 < r
        → length rows ≤ r * chunk_size
        → joined (columns xs r 0 p) ≡ some (select xs (in_part p parts))
    joined-columns zero p lt enough = absurd (omega arith)
    joined-columns (suc r) p lt enough =
        ap some (concat-columns (suc r) 0 p (omega arith) (omega arith))

  -- The pieces of a part join to the part.
  module _ (torch : Torch) (same_cols : length cols ≡ length rows)
      (same_eids : length eids ≡ length rows) (same_parts : length parts ≡ length rows) where
    pub cat_part_lem :
        (r p : ℕ)
        → 0 < r
        → length rows ≤ r * chunk_size
        → cat_part torch (pieces rows cols eids parts chunk_size r 0 p)
          ≡ some (part_of rows cols eids parts p)
    unfolding cat_part
    cat_part_lem r p lt enough = simp (
      torch.cat_law,
      map-rows,
      map-cols,
      map-eids,
      joined-columns rows refl same_parts r p lt enough,
      joined-columns cols same_cols same_parts r p lt enough,
      joined-columns eids same_eids same_parts r p lt enough,
    )
