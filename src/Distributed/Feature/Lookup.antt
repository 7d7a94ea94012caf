-- ===== src/Distributed/Feature/Lookup.antt =====
-- A distributed lookup gives every id the row of the partition that owns it.
use graphlearn_for_pytorch.Prelude.{
  ℕ, ◌≡◌, refl, sym, ap, ◌∙◌, Option, some, List, [], ◌∷◌, map, arith, ◌==◌, ==_iff, if◌then◌else◌,
  inl, inr, Bool-cases, length, get_elem?, range, traverse, length-map, length-range_from,
}
use graphlearn_for_pytorch.Torch.{
  Torch, gather, gather-cons, length-gather, masked-eq-select, select, select-aligned, contains,
  contains_at, contains-absent, find_index, length-select_same,
}
use graphlearn_for_pytorch.Data.Feature.{Feature, cpu_get, row_at, cpu_get-eq-traverse}
use graphlearn_for_pytorch.Partition.Chunks.{in_part}
use graphlearn_for_pytorch.Partition.Edges.{ids_from-AllBelow, contains-ids}
use graphlearn_for_pytorch.Distributed.Feature.{select_partition}

-- The ids of one part, and their places in the request.
abbrev pub chosen : List ℕ → List ℕ → ℕ → List ℕ
chosen ids partition_ids pidx = select ids (in_part pidx partition_ids)

abbrev pub places : List ℕ → List ℕ → ℕ → List ℕ
places ids partition_ids pidx = select (range (length ids)) (in_part pidx partition_ids)

-- `F id` is the row that belongs to an id, `partition_ids` the parts of the requested ids.
module _ (torch : Torch) {Row : Type 0} (F : ℕ → Option Row) (ids partition_ids : List ℕ)
    (sized : length partition_ids ≡ length ids) where
  pub select_partition_lem :
      (pidx : ℕ)
      → select_partition torch ids partition_ids pidx
        ≡ some (chosen ids partition_ids pidx, places ids partition_ids pidx)
  unfolding select_partition
  select_partition_lem pidx =
      let hm : length (in_part pidx partition_ids) ≡ length partition_ids =
        length-map partition_ids _ in
      simp (
        torch.masked_select_law,
        torch.arange_law,
        masked-eq-select ids (in_part pidx partition_ids) (omega arith),
        masked-eq-select (range (length ids)) (in_part pidx partition_ids)
            (omega (arith, length-range_from 0 (length ids))),
      )

  -- The rows answer a list of ids.
  abbrev pub Answers : List Row → List ℕ → Type 0
  Answers rows is =
      (length rows ≡ length is) × ((k id : ℕ) → get_elem? is k ≡ some id → get_elem? rows k ≡ F id)

  -- Writing one partition's answer.
  pub record Wrote (pidx : ℕ) (rows feat : List Row) : Type 0 where
    pub after : List Row
    pub returns : torch.index_put feat (places ids partition_ids pidx) rows ≡ some after
    pub size : length after ≡ length ids
    pub entry :
        (j t id : ℕ)
        → get_elem? partition_ids j ≡ some t
        → get_elem? ids j ≡ some id
        → get_elem? after j ≡ (if t == pidx then F id else get_elem? feat j)

  pub write_part :
      (pidx : ℕ) (rows feat : List Row)
      → length feat ≡ length ids
      → Answers rows (chosen ids partition_ids pidx)
      → Wrote pidx rows feat
  write_part pidx rows feat h (same, answers) =
      let (after, put, is_put) =
        torch.index_put_law feat (places ids partition_ids pidx) rows
          (length-select_same (range (length ids)) ids (in_part pidx partition_ids)
              (length-range_from 0 (length ids))
            ∙ sym same)
          (rw (h, ← sized)
            (ids_from-AllBelow 0 (length partition_ids) pidx partition_ids (omega arith))) in
      record {
        after = after;
        returns = put;
        size = is_put.size ∙ h;
        entry = λ j t id at_t at_id.
            let test : contains (places ids partition_ids pidx) j ≡ (t == pidx) =
              rw (← sized) (contains-ids partition_ids pidx j t at_t) in
            elim (Bool-cases (t == pidx)) [
              | inl here ↦ elim (find_index (places ids partition_ids pidx) j) [
                | inl (k, at) ↦
                    let (k', at', wrote) = is_put.written k j at in
                    let aligned = select-aligned ids (in_part pidx partition_ids) k' j at' in
                    rw here (wrote ∙ answers k' id (aligned ∙ at_id))
                | inr absent ↦
                    absurd (cc (contains-absent (places ids partition_ids pidx) j absent))
              ]
              | inr other ↦
                  rw other (
                    is_put.kept j (λ k at. cc (contains_at (places ids partition_ids pidx) j k at)))
            ];
      }

module _ (torch : Torch) {Row : Type 0} (F : ℕ → Row) (pb ids partition_ids : List ℕ)
    (stores : ℕ → Feature Row) (me : ℕ) (read : gather pb ids ≡ some partition_ids)
    (holds : (id pidx : ℕ)
      → get_elem? pb id ≡ some pidx
      → row_at (stores pidx) id ≡ some (F id)) where
  abbrev pub request : ℕ → List ℕ → Option (List Row)
  request pidx is = cpu_get torch (stores pidx) is

  pub rows_of_chosen :
      (pidx : ℕ) (is parts : List ℕ)
      → gather pb is ≡ some parts
      → traverse (row_at (stores pidx)) (select is (in_part pidx parts))
        ≡ some (map F (select is (in_part pidx parts)))
  rows_of_chosen pidx [] parts h = refl
  rows_of_chosen pidx (i ∷ is) parts h =
      let (t, rest, at, more, e) = gather-cons pb i is parts h in
      let ih = rows_of_chosen pidx is rest more in
      rw e (elim (Bool-cases (t == pidx)) [
        | inl same ↦
            let here = holds i pidx (at ∙ ap some ((==_iff t pidx).0 same)) in rw (same, here, ih)
        | inr other ↦ rw (other, ih)
      ])

  abbrev pub sized : length partition_ids ≡ length ids
  sized = length-gather pb ids partition_ids read

  pub answer :
      (pidx : ℕ)
      → request pidx (chosen ids partition_ids pidx) ≡ some (map F (chosen ids partition_ids pidx))
  answer pidx =
      cpu_get-eq-traverse torch (stores pidx) _ ∙ rows_of_chosen pidx ids partition_ids read
