-- ===== src/Partition/Base.antt =====
-- `PartitionerBase` of graphlearn_torch/python/partition/base.py: its fields, its getters and the
-- three methods that split edges and features. Saving to files is in `Files`.
use graphlearn_for_pytorch.Prelude.{
  ℕ, zero, suc, ◌+◌, ◌-◌, ◌/◌, min, Bool, true, false, ◌&&◌, Option, none, some, List, [], ◌∷◌,
  ◌++◌, map, ◌==◌, ltb, if◌then◌else◌, length, replicate, range, ◌>>=◌, ◌>>◌, assert, Eq, Dict,
  lookup, string_keys, triple_keys,
}
use graphlearn_for_pytorch.Torch.{Torch}
use graphlearn_for_pytorch.Typing.{NodeType, EdgeType, PartitionBook, GraphPartitionData}

-- A value for a homogeneous graph, or one for each type.
pub data PerType (K V : Type 0) : Type 0 where
  homo : V → PerType K V
  hetero : Dict K V → PerType K V

pub data Strategy : Type 0 where
  by_src by_dst : Strategy

abbrev pub EdgeIndex : Type 0
EdgeIndex = List ℕ × List ℕ

pub record PartitionerBase (Row : Type 0) : Type 0 where
  pub num_parts : ℕ
  pub num_nodes : PerType NodeType ℕ
  pub edge_index : PerType EdgeType EdgeIndex
  pub node_feat : Option (PerType NodeType (List Row))
  pub edge_feat : Option (PerType EdgeType (List Row))
  pub edge_assign_strategy : Strategy
  pub chunk_size : ℕ

abbrev pub is_hetero : {K V : Type 0} → PerType K V → Bool
is_hetero (homo v) = false
is_hetero (hetero d) = true

abbrev none_or_hetero : {K V : Type 0} → Option (PerType K V) → Bool
none_or_hetero none = true
none_or_hetero (some p) = is_hetero p

module _ {Row : Type 0} where
  -- The assertions of `__init__`; the strategy's assertion is its type here.
  unfoldable pub new_partitioner : PartitionerBase Row → Option (PartitionerBase Row)
  new_partitioner p =
      assert (ltb 1 p.num_parts)
      >> (if is_hetero p.num_nodes
          then assert
              (is_hetero p.edge_index && (none_or_hetero p.node_feat && none_or_hetero p.edge_feat))
          else some tt)
      >> some p

-- `self.data[type]` for a heterogeneous graph, `self.data` for a homogeneous one.
abbrev pub of_type : {K V : Type 0} ⦃e : Eq K⦄ → PerType K V → Option K → Option V
of_type (homo v) type = some v
of_type (hetero d) none = none
of_type (hetero d) (some k) = lookup d k

-- A getter of features: nothing if there are none.
abbrev pub feat_of : {K V : Type 0} ⦃e : Eq K⦄ → Option (PerType K V) → Option K → Option (Option V)
feat_of none type = some none
feat_of (some p) type = of_type p type >>= λ v. some (some v)

module _ {Row : Type 0} where
  abbrev pub get_edge_index : PartitionerBase Row → Option EdgeType → Option EdgeIndex
  get_edge_index p etype = of_type p.edge_index etype

  abbrev pub get_node_feat : PartitionerBase Row → Option NodeType → Option (Option (List Row))
  get_node_feat p ntype = feat_of p.node_feat ntype

  abbrev pub get_edge_feat : PartitionerBase Row → Option EdgeType → Option (Option (List Row))
  get_edge_feat p etype = feat_of p.edge_feat etype

-- The node type at the end of an edge that decides where the edge goes.
abbrev pub target_type : Strategy → Option EdgeType → Option NodeType
target_type strategy none = none
target_type by_src (some (src, edge, dst)) = some src
target_type by_dst (some (src, edge, dst)) = some dst

abbrev pub target_indices : Strategy → EdgeIndex → List ℕ
target_indices by_src (rows, cols) = rows
target_indices by_dst (rows, cols) = cols

-- `res[pidx].append(item)`
abbrev pub append_at : {A : Type 0} → List (List A) → ℕ → A → List (List A)
append_at [] pidx item = []
append_at (xs ∷ res) zero item = (xs ++ item ∷ []) ∷ res
append_at (xs ∷ res) (suc pidx) item = xs ∷ append_at res pidx item

module _ (torch : Torch) where
  -- What one round of the loop over the parts selects from the current chunk.
  unfoldable pub chunk_part :
      List ℕ → List ℕ → List ℕ → List ℕ → List ℕ → ℕ → Option GraphPartitionData
  chunk_part chunk_idx chunk_rows chunk_cols chunk_eids chunk_partition_idx pidx = do
    let mask = map (λ q. q == pidx) chunk_partition_idx
    idx ← torch.masked_select chunk_idx mask
    rows ← torch.index chunk_rows idx
    cols ← torch.index chunk_cols idx
    eids ← torch.index chunk_eids idx
    some (record { edge_index = (rows, cols); eids = eids })

  -- `for pidx in range(self.num_parts): res[pidx].append(…)`
  unfoldable pub append_parts :
      (ℕ → Option GraphPartitionData)
      → List ℕ
      → List (List GraphPartitionData)
      → Option (List (List GraphPartitionData))
  append_parts part [] res = some res
  append_parts part (pidx ∷ pidxs) res = do
    item ← part pidx
    append_parts part pidxs (append_at res pidx item)

  module _ (num_parts chunk_size : ℕ) (rows cols eids target_node_pb targets : List ℕ) where
    -- One chunk, from `chunk_start_pos` on: the new position and the new `res`.
    unfoldable pub chunk_round :
        ℕ → List (List GraphPartitionData) → Option (ℕ × List (List GraphPartitionData))
    chunk_round chunk_start_pos res = do
      let chunk_end_pos = min (length rows) (chunk_start_pos + chunk_size)
      let current_chunk_size = chunk_end_pos - chunk_start_pos
      chunk_partition_idx ←
          torch.index target_node_pb (torch.slice targets chunk_start_pos chunk_end_pos)
      res' ←
          append_parts
            (chunk_part (torch.arange current_chunk_size)
              (torch.slice rows chunk_start_pos chunk_end_pos)
              (torch.slice cols chunk_start_pos chunk_end_pos)
              (torch.slice eids chunk_start_pos chunk_end_pos) chunk_partition_idx)
            (range num_parts) res
      some (chunk_start_pos + current_chunk_size, res')

    -- `for _ in range(chunk_num)`
    unfoldable pub chunk_loop :
        ℕ → ℕ → List (List GraphPartitionData) → Option (List (List GraphPartitionData))
    chunk_loop zero chunk_start_pos res = some res
    chunk_loop (suc rounds) chunk_start_pos res = do
      (start, res') ← chunk_round chunk_start_pos res
      chunk_loop rounds start res'

  -- The pieces of a part, put together.
  unfoldable pub cat_part : List GraphPartitionData → Option GraphPartitionData
  cat_part pieces = do
    p_rows ← torch.cat (map (λ r. r.edge_index.0) pieces)
    p_cols ← torch.cat (map (λ r. r.edge_index.1) pieces)
    p_eids ← torch.cat (map (λ r. r.eids) pieces)
    some (record { edge_index = (p_rows, p_cols); eids = p_eids })

  -- The loop that joins the pieces and writes the partition book.
  unfoldable pub collect_parts :
      ℕ
      → List (List GraphPartitionData)
      → PartitionBook
      → Option (List GraphPartitionData × PartitionBook)
  collect_parts pidx [] partition_book = some ([], partition_book)
  collect_parts pidx (pieces ∷ res) partition_book = do
    part ← cat_part pieces
    book ← torch.index_fill partition_book part.eids pidx
    (parts, final) ← collect_parts (suc pidx) res book
    some (part ∷ parts, final)

  -- `_partition_graph` once the edge index, the book and the deciding ends are chosen. Division by
  -- a chunk size of zero raises.
  unfoldable pub partition_edges :
      ℕ → ℕ → EdgeIndex → PartitionBook → List ℕ → Option (List GraphPartitionData × PartitionBook)
  partition_edges num_parts zero edge_index target_node_pb targets = none
  partition_edges num_parts (suc c) (rows, cols) target_node_pb targets = do
    let chunk_size = suc c
    let edge_num = length rows
    let chunk_num = (edge_num + chunk_size - 1) / chunk_size
    res ←
        chunk_loop num_parts chunk_size rows cols (torch.arange edge_num) target_node_pb targets
          chunk_num 0 (replicate num_parts [])
    collect_parts 0 res (torch.zeros edge_num)

  module _ {Row : Type 0} (p : PartitionerBase Row) where
    unfoldable pub partition_graph :
        PerType NodeType PartitionBook
        → Option EdgeType
        → Option (List GraphPartitionData × PartitionBook)
    unfolding partition_edges chunk_loop chunk_round append_parts chunk_part collect_parts cat_part
    partition_graph node_pb etype = do
      edge_index ← get_edge_index p etype
      target_node_pb ← of_type node_pb (target_type p.edge_assign_strategy etype)
      partition_edges p.num_parts p.chunk_size edge_index target_node_pb
          (target_indices p.edge_assign_strategy edge_index)
