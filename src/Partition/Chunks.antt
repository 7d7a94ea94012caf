-- ===== src/Partition/Chunks.antt =====
-- The chunk loop of `_partition_graph`: what it has selected for each part when it ends.
use mathlib.Core.List.{append-nil, append_assoc}
use graphlearn_for_pytorch.Prelude.{
  ℕ, zero, suc, ◌+◌, ◌-◌, min, ◌≡◌, refl, ap, sym, ◌∙◌, Bool, Option, some, List, [], ◌∷◌, ◌++◌,
  map, arith, ◌==◌, length, take, drop, range, range_from, length-take, length-drop, length-map,
  length-range_from, length-append,
}
use graphlearn_for_pytorch.Torch.{
  Torch, gather, select, masked-eq-select, gather-select, gather-take, gather-drop,
}
use graphlearn_for_pytorch.Typing.{GraphPartitionData}
use graphlearn_for_pytorch.Partition.Base.{
  append_at, chunk_part, append_parts, chunk_round, chunk_loop,
}

-- The edges that a part gets of some columns, given the part of each edge.
abbrev pub in_part : ℕ → List ℕ → List Bool
in_part p parts = map (λ q. q == p) parts

abbrev pub part_of : List ℕ → List ℕ → List ℕ → List ℕ → ℕ → GraphPartitionData
part_of rows cols eids parts p = record {
  edge_index = (select rows (in_part p parts), select cols (in_part p parts));
  eids = select eids (in_part p parts);
}

module _ (torch : Torch) where
  chunk_part_lem :
      (rows cols eids parts : List ℕ) (p : ℕ)
      → length cols ≡ length rows
      → length eids ≡ length rows
      → length parts ≡ length rows
      → chunk_part torch (torch.arange (length rows)) rows cols eids parts p
        ≡ some (part_of rows cols eids parts p)
  unfolding chunk_part
  chunk_part_lem rows cols eids parts p hc he hp =
      let mask = in_part p parts in
      let hm : length mask ≡ length parts = length-map parts _ in
      let hr = length-range_from 0 (length rows) in
      let sel = masked-eq-select (range (length rows)) mask (omega arith) in
      let gr = gather-select rows mask (omega arith) in
      let gc = gather-select cols mask (omega arith) in
      let ge = gather-select eids mask (omega arith) in
      simp (
        torch.arange_law,
        torch.masked_select_law,
        torch.index_law,
        sel,
        gr,
        rw hc at gc,
        rw he at ge,
      )

append_at-length :
    {A : Type 0} (pre : List (List A)) (xs : List A) (res : List (List A)) (x : A)
    → append_at (pre ++ xs ∷ res) (length pre) x ≡ pre ++ (xs ++ x ∷ []) ∷ res
append_at-length [] xs res x = refl
append_at-length (p ∷ pre) xs res x = ap (λ l. p ∷ l) (append_at-length pre xs res x)

module _ (torch : Torch) where
  -- The loop over the parts appends one item to each list of `res`.
  append_parts_from :
      (part : ℕ → Option GraphPartitionData) (f : ℕ → GraphPartitionData)
      → ((p : ℕ) → part p ≡ some (f p))
      → (g : ℕ → List GraphPartitionData) (k : ℕ) (pre : List (List GraphPartitionData))
      → append_parts torch part
          (range_from (length pre) k)
          (pre ++ map g (range_from (length pre) k))
        ≡ some (pre ++ map (λ p. g p ++ f p ∷ []) (range_from (length pre) k))
  unfolding append_parts
  append_parts_from part f h g zero pre = refl
  append_parts_from part f h g (suc k) pre =
      let n = length pre in
      let done = pre ++ (g n ++ f n ∷ []) ∷ [] in
      let e : length done ≡ suc n = omega (arith, length-append pre ((g n ++ f n ∷ []) ∷ [])) in
      let ih = append_parts_from part f h g k done in
      rw (h n, append_at-length pre (g n) (map g (range_from (suc n) k)) (f n))
        (simp (e, append_assoc) at ih)

  append_parts_lem :
      (part : ℕ → Option GraphPartitionData) (f : ℕ → GraphPartitionData)
      → ((p : ℕ) → part p ≡ some (f p))
      → (g : ℕ → List GraphPartitionData) (n : ℕ)
      → append_parts torch part (range n) (map g (range n))
        ≡ some (map (λ p. g p ++ f p ∷ []) (range n))
  append_parts_lem part f h g n = append_parts_from part f h g n []

-- The columns of an edge index, and the part of each edge.
module _ (rows cols eids parts : List ℕ) (chunk_size : ℕ) where
  abbrev chunk_end : ℕ → ℕ
  chunk_end start = min (length rows) (start + chunk_size)

  abbrev part_of_chunk : ℕ → ℕ → GraphPartitionData
  part_of_chunk start p =
      let k = chunk_end start - start in
      part_of (take k (drop start rows)) (take k (drop start cols)) (take k (drop start eids))
        (take k (drop start parts)) p

  -- What the chunks from `start` on give to the part `p`.
  abbrev pub pieces : ℕ → ℕ → ℕ → List GraphPartitionData
  pieces zero start p = []
  pieces (suc rounds) start p =
      part_of_chunk start p ∷ pieces rounds (start + (chunk_end start - start)) p

  module _ (torch : Torch) (pb targets : List ℕ) (same_cols : length cols ≡ length rows)
      (same_eids : length eids ≡ length rows) (same_parts : length parts ≡ length rows)
      (read : gather pb targets ≡ some parts) (n : ℕ) where
    length_chunk :
        (start : ℕ) (xs : List ℕ)
        → length xs ≡ length rows
        → length (take (chunk_end start - start) (drop start xs)) ≡ chunk_end start - start
    length_chunk start xs h =
        omega (arith, length-take (chunk_end start - start) (drop start xs), length-drop start xs)

    chunk_round_lem :
        (start : ℕ) (g : ℕ → List GraphPartitionData)
        → chunk_round torch n chunk_size rows cols eids pb targets start (map g (range n))
          ≡ some (
            start + (chunk_end start - start),
            map (λ p. g p ++ part_of_chunk start p ∷ []) (range n),
          )
    unfolding chunk_round
    chunk_round_lem start g =
        let k = chunk_end start - start in
        let sized = length_chunk start in
        let read_chunk =
          gather-take k pb (drop start targets) (drop start parts)
            (gather-drop start pb targets parts read) in
        let part = λ (p : ℕ). rw (length_chunk start rows refl) at (
          chunk_part_lem torch (take k (drop start rows)) (take k (drop start cols))
            (take k (drop start eids)) (take k (drop start parts)) p
            (sized cols same_cols ∙ sym (sized rows refl))
            (sized eids same_eids ∙ sym (sized rows refl))
            (sized parts same_parts ∙ sym (sized rows refl))) in
        let loop = append_parts_lem torch _ (part_of_chunk start) part g n in
        simp (torch.index_law, torch.slice_law, read_chunk, loop)

    pub chunk_loop_lem :
        (rounds start : ℕ) (g : ℕ → List GraphPartitionData)
        → chunk_loop torch n chunk_size rows cols eids pb targets rounds start (map g (range n))
          ≡ some (map (λ p. g p ++ pieces rounds start p) (range n))
    unfolding chunk_loop
    chunk_loop_lem zero start g = simp append-nil
    chunk_loop_lem (suc rounds) start g =
        let ih =
          chunk_loop_lem rounds (start + (chunk_end start - start))
            (λ p. g p ++ part_of_chunk start p ∷ []) in
        rw (chunk_round_lem start g) (simp append_assoc at ih)
