-- ===== src/Sampler/Neighbor.antt =====
-- `NeighborSampler` of graphlearn_torch/python/sampler/neighbor_sampler.py on a homogeneous graph.
-- The compiled sampler of one hop is a parameter: `pywrap call seeds req_num` is the answer of its
-- call number `call`, so that equal calls may draw different neighbors.
use graphlearn_for_pytorch.Prelude.{
  ℕ, zero, suc, ◌+◌, ℤ, pos, ◌+ℤ◌, ◌*ℤ◌, Bool, true, false, Option, none, some, List, [], ◌∷◌, ◌++◌,
  map, ◌==◌, if◌then◌else◌, ◌>>=◌, length, replicate,
}
use graphlearn_for_pytorch.Torch.{Torch}
use graphlearn_for_pytorch.Sampler.Base.{
  EdgeId, edge, minus_one, NeighborOutput, SamplerOutput, EdgeIndex, NodeSamplerInput,
}
use graphlearn_for_pytorch.Sampler.Inducer.{Inducer, init_node, induce_next, Induced}
pub mod Relabels
pub mod Bounds

-- An answer of the compiled sampler: neighbors, their number for each seed, and edge ids.
pub record Answer : Type 0 where
  pub nbrs : List ℕ
  pub nbrs_num : List ℕ
  pub eids : List ℕ

abbrev pub OneHop : Type 0
OneHop = ℕ → List ℕ → ℕ → Answer

-- An entry -1 of `num_neighbors`, which asks for all neighbors, is not modelled.
pub record NeighborSampler : Type 0 where
  pub num_neighbors : List ℕ
  pub with_edge : Bool

abbrev pub ones : List ℕ → List ℕ
ones input_seeds = replicate (length input_seeds) 1

-- Without a single neighbor, each seed gets itself as neighbor, over an edge -1.
unfoldable pub sample_one_hop : OneHop → Bool → ℕ → List ℕ → ℕ → NeighborOutput
sample_one_hop pywrap with_edge call input_seeds req_num =
    let answer = pywrap call input_seeds req_num in
    if length answer.nbrs == 0
    then record {
      nbr = input_seeds;
      nbr_num = ones input_seeds;
      edge_ids = if with_edge then some (map (λ n. minus_one) (ones input_seeds)) else none;
    }
    else record {
      nbr = answer.nbrs;
      nbr_num = answer.nbrs_num;
      edge_ids = if with_edge then some (map edge answer.eids) else none;
    }

-- The lists that the loop of `_sample_from_nodes` appends to.
pub record Hops : Type 0 where
  pub out_nodes : List (List ℕ)
  pub out_rows : List (List ℕ)
  pub out_cols : List (List ℕ)
  pub out_edges : List (List EdgeId)

abbrev pub append_edges : List (List EdgeId) → Option (List EdgeId) → List (List EdgeId)
append_edges out_edges none = out_edges
append_edges out_edges (some edge_ids) = out_edges ++ edge_ids ∷ []

module _ (pywrap : OneHop) (with_edge : Bool) where
  -- `for req_num in self.num_neighbors`
  unfoldable pub hop_loop : List ℕ → ℕ → Inducer → List ℕ → Hops → Option Hops
  unfolding sample_one_hop induce_next
  hop_loop [] call inducer srcs hops = some hops
  hop_loop (req_num ∷ req_nums) call inducer srcs hops = do
    let out_nbrs = sample_one_hop pywrap with_edge call srcs req_num
    d ← induce_next inducer srcs out_nbrs.nbr out_nbrs.nbr_num
    hop_loop req_nums (call + 1) d.inducer d.nodes (record {
      out_nodes = hops.out_nodes ++ d.nodes ∷ [];
      out_rows = hops.out_rows ++ d.rows ∷ [];
      out_cols = hops.out_cols ++ d.cols ∷ [];
      out_edges = append_edges hops.out_edges out_nbrs.edge_ids;
    })

module _ (torch : Torch) where
  -- `torch.cat(out_edges) if out_edges else None`
  abbrev pub cat_edges : List (List EdgeId) → Option (Option (List EdgeId))
  cat_edges [] = some none
  cat_edges (ids ∷ idss) = torch.cat (ids ∷ idss) >>= λ all. some (some all)

  module _ (pywrap : OneHop) where
    unfoldable pub sample_from_nodes :
        {Metadata : Type 0} → NeighborSampler → List ℕ → Option (SamplerOutput Metadata)
    unfolding hop_loop init_node
    sample_from_nodes self input_seeds = do
      let srcs = (init_node input_seeds).1
      hops ←
          hop_loop pywrap self.with_edge self.num_neighbors 0 (init_node input_seeds).0 srcs
            (record { out_nodes = srcs ∷ []; out_rows = []; out_cols = []; out_edges = [] })
      node ← torch.cat hops.out_nodes
      row ← torch.cat hops.out_cols
      col ← torch.cat hops.out_rows
      edge_ids ← cat_edges hops.out_edges
      some (record {
        node = node;
        row = row;
        col = col;
        edge_ids = edge_ids;
        batch = some srcs;
        metadata = none;
      })

    -- The loop of `sample_pyg_v1`: the inducer starts anew at each hop. What is built is reversed.
    unfoldable pub pyg_loop :
        Bool → List ℕ → ℕ → List ℕ → List EdgeIndex → Option (List ℕ × List EdgeIndex)
    unfolding init_node induce_next sample_one_hop
    pyg_loop with_edge [] call srcs adjs = some (srcs, adjs)
    pyg_loop with_edge (req_num ∷ req_nums) call srcs adjs = do
      let seeds = (init_node srcs).1
      let out_nbrs = sample_one_hop pywrap with_edge call seeds req_num
      d ← induce_next (init_node srcs).0 seeds out_nbrs.nbr out_nbrs.nbr_num
      let out_ids = seeds ++ d.nodes
      let adj : EdgeIndex = record {
        edge_index = (d.cols, d.rows);
        e_id = out_nbrs.edge_ids;
        size = (length out_ids, length seeds);
      }
      pyg_loop with_edge req_nums (call + 1) out_ids (adj ∷ adjs)

    -- The size of the batch is that of the distinct ids, and 0 if there is no hop.
    unfoldable pub sample_pyg_v1 : NeighborSampler → List ℕ → Option (ℕ × List ℕ × List EdgeIndex)
    unfolding pyg_loop
    sample_pyg_v1 self ids = do
      (out_ids, adjs) ← pyg_loop self.with_edge self.num_neighbors 0 ids []
      let batch_size : ℕ = elim self.num_neighbors [ [] ↦ 0 | n ∷ ns ↦ length (init_node ids).1 ]
      some (batch_size, out_ids, adjs)

-- `_max_sampled_nodes`: the sizes of the hops, `res`. An entry -1, for all neighbors, counts as -1.
unfoldable pub hop_sizes : ℤ → List ℤ → List ℤ
hop_sizes last [] = last ∷ []
hop_sizes last (num ∷ num_neighbors) = last ∷ hop_sizes (last *ℤ num) num_neighbors

abbrev pub sum_sizes : List ℤ → ℤ
sum_sizes [] = pos 0
sum_sizes (n ∷ ns) = n +ℤ sum_sizes ns

unfoldable pub max_sampled_nodes : List ℤ → ℕ → ℤ
unfolding hop_sizes
max_sampled_nodes num_neighbors input_batch_size =
    sum_sizes (hop_sizes (pos input_batch_size) num_neighbors)
