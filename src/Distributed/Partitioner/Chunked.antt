-- ===== src/Distributed/Partitioner/Chunked.antt =====
-- `_partition_by_chunk` of graphlearn_torch/python/distributed/dist_random_partitioner.py: the
-- results that a worker gives its manager, chunk by chunk. Each of them is handed to `process`, and
-- the next chunk waits for its calls: that part is `Step.next_chunk` of the group.
use graphlearn_for_pytorch.Prelude.{
  ℕ, zero, suc, ◌+◌, ◌-◌, ◌/◌, ◌≤◌, ◌<◌, min, ◌≡◌, Option, none, some, List, [], ◌∷◌, map, ◌==◌,
  length, get_elem?, take, drop, range, concat, traverse, ◌>>=◌,
}
use graphlearn_for_pytorch.Torch.{Torch, select}
use graphlearn_for_pytorch.Utils.Common.{Selector, slice_of, positions, option_select}
use graphlearn_for_pytorch.Partition.Chunks.{in_part}
use graphlearn_for_pytorch.Distributed.Partitioner.{Results}

-- `partition_fn`: the parts of the ids of a chunk, given its start and end.
abbrev pub PartitionFn : Type 0
PartitionFn = List ℕ → ℕ → ℕ → Option (List ℕ)

module _ (torch : Torch) {D : Type 0} (index_select : Selector D) (num_parts : ℕ) where
  -- One round of the loop over the parts.
  unfoldable pub result_of : Option D → List ℕ → List ℕ → List ℕ → ℕ → Option (Option D × List ℕ)
  result_of chunk_val chunk_val_idx chunk_idx chunk_partition_idx pidx = do
    idx ← torch.masked_select chunk_idx (map (λ q. q == pidx) chunk_partition_idx)
    val ← option_select index_select chunk_val (positions idx)
    ids ← torch.index chunk_val_idx idx
    some (val, ids)

  module _ (chunk_size : ℕ) (val : Option D) (val_idx : List ℕ) (partition_fn : PartitionFn) where
    -- One chunk, from `chunk_start_pos` on: the new position and the results.
    unfoldable pub chunk_results : ℕ → Option (ℕ × Results D)
    unfolding result_of
    chunk_results chunk_start_pos = do
      let chunk_end_pos = min (length val_idx) (chunk_start_pos + chunk_size)
      let current_chunk_size = chunk_end_pos - chunk_start_pos
      let chunk_idx = torch.arange current_chunk_size
      chunk_val ← option_select index_select val (slice_of chunk_start_pos chunk_end_pos)
      let chunk_val_idx = torch.slice val_idx chunk_start_pos chunk_end_pos
      chunk_partition_idx ← partition_fn chunk_val_idx chunk_start_pos chunk_end_pos
      chunk_res ←
          traverse (result_of chunk_val chunk_val_idx chunk_idx chunk_partition_idx)
            (range num_parts)
      some (chunk_start_pos + current_chunk_size, chunk_res)

    -- `for _ in range(chunk_num)`
    unfoldable pub all_results : ℕ → ℕ → Option (List (Results D))
    unfolding chunk_results
    all_results zero chunk_start_pos = some []
    all_results (suc rounds) chunk_start_pos = do
      (next, chunk_res) ← chunk_results chunk_start_pos
      rest ← all_results rounds next
      some (chunk_res ∷ rest)

  -- Division by a chunk size of zero raises.
  unfoldable pub partition_by_chunk :
      ℕ → Option D → List ℕ → PartitionFn → Option (List (Results D))
  unfolding all_results
  partition_by_chunk zero val val_idx partition_fn = none
  partition_by_chunk (suc c) val val_idx partition_fn =
      let chunk_size = suc c in
      let chunk_num = (length val_idx + chunk_size - 1) / chunk_size in
      all_results chunk_size val val_idx partition_fn chunk_num 0

module _ {D Item : Type 0} (items : D → List Item) where
  abbrev pub option_items : Option D → List Item
  option_items none = []
  option_items (some d) = items d

  -- Nothing, or data of `k` rows.
  abbrev pub HasRows : Option D → ℕ → Type 0
  HasRows val k = (d : D) → val ≡ some d → length (items d) ≡ k

  abbrev pub items_at : ℕ → Results D → List Item
  items_at p res_list = elim (get_elem? res_list p) [
    | none ↦ []
    | some (val, ids) ↦ option_items val
  ]

  -- The items that a worker's chunks have for the part `p`, in order.
  abbrev pub given : ℕ → List (Results D) → List Item
  given p chunks = concat (map (items_at p) chunks)

abbrev pub ids_at : {D : Type 0} → ℕ → Results D → List ℕ
ids_at p res_list = elim (get_elem? res_list p) [ none ↦ [] | some (val, ids) ↦ ids ]

-- The ids that a worker's chunks have for the part `p`, in order.
abbrev pub given_ids : {D : Type 0} → ℕ → List (Results D) → List ℕ
given_ids p chunks = concat (map (ids_at p) chunks)

-- One chunk's results: each part gets the ids and the rows whose part it is.
pub record IsSplit {D Item : Type 0} (items : D → List Item) (n : ℕ) (ids : List ℕ)
    (rows : List Item) (parts : List ℕ) (res_list : Results D) : Type 0 where
  pub sized : length res_list ≡ n
  pub part_ids : (p : ℕ) → p < n → ids_at p res_list ≡ select ids (in_part p parts)
  pub part_items : (p : ℕ) → p < n → items_at items p res_list ≡ select rows (in_part p parts)

-- The partition function gives each id of a chunk a part, and the part that it gives to the id at
-- the position `k` of `val_idx` satisfies `P k`.
abbrev pub GivesParts : PartitionFn → List ℕ → (ℕ → ℕ → Type 0) → Type 0
GivesParts partition_fn val_idx P =
    (s e : ℕ)
    → s ≤ e
    → e ≤ length val_idx
    → (parts : List ℕ) × (partition_fn (take (e - s) (drop s val_idx)) s e ≡ some parts)
      × (length parts ≡ e - s)
      × ((j p : ℕ) → get_elem? parts j ≡ some p → P (s + j) p)

-- The results of some chunks, when `parts` has the part of each row.
pub record AllSplit {D Item : Type 0} (items : D → List Item) (n : ℕ) (ids : List ℕ)
    (rows : List Item) (parts : List ℕ) (chunks : List (Results D)) : Type 0 where
  pub chunk_sizes :
      (c : ℕ) (res_list : Results D) → get_elem? chunks c ≡ some res_list → length res_list ≡ n
  pub all_ids : (p : ℕ) → p < n → given_ids p chunks ≡ select ids (in_part p parts)
  pub all_items : (p : ℕ) → p < n → given items p chunks ≡ select rows (in_part p parts)
