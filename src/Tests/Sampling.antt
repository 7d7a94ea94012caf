-- ===== src/Tests/Sampling.antt =====
-- Samples of a path, in which each node leads to the next, over two hops.
use graphlearn_for_pytorch.Sampler.Hops.{
  HaveHops, per_type, set_num_neighbors_and_num_hops, set_num_neighbors-HaveHops,
}
use graphlearn_for_pytorch.Prelude.{
  ◌↔◌, ℕ, zero, suc, ◌≤◌, ◌≡◌, refl, ap, sym, ◌∙◌, true, none, some, List, [], ◌∷◌, map, arith,
  ◌==◌, ==_iff, if◌then◌else◌, length, get_elem?, replicate, length-map, length-replicate, some_inj,
  inl, inr, Bool-cases, Dict, pos,
}
use graphlearn_for_pytorch.Typing.{EdgeType}
use graphlearn_for_pytorch.Torch.{gather, gather-cons_eq, contains}
use graphlearn_for_pytorch.Torch.Concrete.{concrete}
use graphlearn_for_pytorch.Sampler.Base.{EdgeSamplerInput, ceil_times, edge, SamplerOutput, binary}
use graphlearn_for_pytorch.Sampler.Inducer.{reset}
use graphlearn_for_pytorch.Sampler.Inducer.Numbering.{
  fresh, insert_nodes-numbers, reset-IsNumbering,
}
use graphlearn_for_pytorch.Sampler.Inducer.Edges.{total, AllIn, fresh-AllIn}
use graphlearn_for_pytorch.Sampler.Neighbor.{
  OneHop, NeighborSampler, sample_from_nodes, max_sampled_nodes,
}
use graphlearn_for_pytorch.Sampler.Neighbor.Relabels.{
  AtMost, IsSampler, IsSample, reference, edges_of, sample_from_nodes-IsSample,
}
use graphlearn_for_pytorch.Sampler.Neighbor.Bounds.{sample_from_nodes-le-max_sampled}
use graphlearn_for_pytorch.Sampler.Links.{Unique, Metadata, links, NegSampler, sample_from_edges}
use graphlearn_for_pytorch.Sampler.Links.Endpoints.{Draws, sample_from_edges-links}

-- One neighbor for each seed, if one is asked for.
abbrev next_node : OneHop
next_node call seeds zero = record { nbrs = []; nbrs_num = replicate (length seeds) 0; eids = [] }
next_node call seeds (suc req) = record {
  nbrs = map suc seeds;
  nbrs_num = replicate (length seeds) 1;
  eids = seeds;
}

total-replicate : (n : ℕ) → total (replicate n 1) ≡ n
total-replicate zero = refl
total-replicate (suc n) = omega (arith, total-replicate n)

total_zeros : (n : ℕ) → total (replicate n 0) ≡ 0
total_zeros zero = refl
total_zeros (suc n) = omega (arith, total_zeros n)

AtMost-replicate : (n k req : ℕ) → k ≤ req → AtMost req (replicate n k)
AtMost-replicate zero k req h = tt
AtMost-replicate (suc n) k req h = (h, AtMost-replicate n k req h)

next_sizes :
    (call : ℕ) (seeds : List ℕ) (req : ℕ)
    → length (next_node call seeds req).nbrs_num ≡ length seeds
next_sizes call seeds zero = length-replicate (length seeds) 0
next_sizes call seeds (suc req) = length-replicate (length seeds) 1

next_sums :
    (call : ℕ) (seeds : List ℕ) (req : ℕ)
    → total (next_node call seeds req).nbrs_num ≡ length (next_node call seeds req).nbrs
next_sums call seeds zero = total_zeros (length seeds)
next_sums call seeds (suc req) = total-replicate (length seeds) ∙ sym (length-map seeds suc)

next-AtMost : (call : ℕ) (seeds : List ℕ) (req : ℕ) → AtMost req (next_node call seeds req).nbrs_num
next-AtMost call seeds zero = AtMost-replicate (length seeds) 0 0 (omega arith)
next-AtMost call seeds (suc req) = AtMost-replicate (length seeds) 1 (suc req) (omega arith)

next_node-IsSampler : IsSampler next_node
next_node-IsSampler = record { sizes = next_sizes; sums = next_sums; at_most = next-AtMost }

abbrev two_hops : NeighborSampler
two_hops = record { num_neighbors = 2 ∷ 1 ∷ []; with_edge = true }

abbrev some_seeds : List ℕ
some_seeds = 4 ∷ 2 ∷ 4 ∷ []

sample_from_nodes-IsSample_example :
    (out : SamplerOutput Metadata) × (sample_from_nodes concrete next_node two_hops some_seeds
      ≡ some out)
    × IsSample some_seeds
        (reference next_node true (2 ∷ 1 ∷ []) 0 (4 ∷ 2 ∷ []) (4 ∷ 2 ∷ []))
        out
        (edges_of (reference next_node true (2 ∷ 1 ∷ []) 0 (4 ∷ 2 ∷ []) (4 ∷ 2 ∷ [])).edge_lists)
sample_from_nodes-IsSample_example =
    sample_from_nodes-IsSample concrete next_node next_node-IsSampler two_hops some_seeds
      (omega arith)

abbrev sampled : SamplerOutput Metadata
sampled = record {
  node = 4 ∷ 2 ∷ 5 ∷ 3 ∷ 6 ∷ [];
  row = 2 ∷ 3 ∷ 4 ∷ 0 ∷ [];
  col = 0 ∷ 1 ∷ 2 ∷ 3 ∷ [];
  edge_ids = some (edge 4 ∷ edge 2 ∷ edge 5 ∷ edge 3 ∷ []);
  batch = some (4 ∷ 2 ∷ []);
  metadata = none;
}

sampled_run : sample_from_nodes concrete next_node two_hops some_seeds ≡ some sampled
unfolding sample_from_nodes concrete
sampled_run = refl

sample_from_nodes-le-max_sampled_example :
    (m : ℕ) × (max_sampled_nodes (pos 2 ∷ pos 1 ∷ []) 3 ≡ pos m) × (5 ≤ m)
sample_from_nodes-le-max_sampled_example =
    sample_from_nodes-le-max_sampled concrete next_node next_node-IsSampler two_hops some_seeds
      sampled (omega arith) sampled_run

abbrev position : List ℕ → ℕ → ℕ
position [] v = 0
position (x ∷ xs) v = if x == v then 0 else suc (position xs v)

position_lem : (xs : List ℕ) (v : ℕ) → contains xs v ≡ true → get_elem? xs (position xs v) ≡ some v
position_lem [] v h = cc
position_lem (x ∷ xs) v h = elim (Bool-cases (x == v)) [
  | inl e ↦ rw e (ap some ((==_iff x v).0 e))
  | inr e ↦ rw e (position_lem xs v (ground (arith, h)))
]

gather_positions : (xs t : List ℕ) → AllIn xs t → gather xs (map (position xs) t) ≡ some t
gather_positions xs [] h = refl
gather_positions xs (v ∷ t) h =
    gather-cons_eq xs (position xs v) (map (position xs) t) (position_lem xs v h.0)
      (gather_positions xs t h.1)

fresh_once :
    (t : List ℕ) (i j v : ℕ)
    → get_elem? (fresh [] t) i ≡ some v
    → get_elem? (fresh [] t) j ≡ some v
    → i ≡ j
fresh_once t i j v hi hj =
    let (out, numbering) = insert_nodes-numbers t reset [] reset-IsNumbering in
    some_inj (sym (numbering.known v i hi) ∙ numbering.known v j hj)

abbrev distinct : Unique
distinct = record {
  unique = λ t. (fresh [] t, map (position (fresh [] t)) t);
  inverse_law = λ t. gather_positions (fresh [] t) t (fresh-AllIn [] t);
  once_law = fresh_once;
}

abbrev two_links : EdgeSamplerInput ℕ
two_links = record {
  row = 1 ∷ 2 ∷ [];
  col = 2 ∷ 3 ∷ [];
  label = none;
  input_type = none;
  neg_sampling = some (record { mode = binary; amount = record { num = 1; den = 2 } });
}

abbrev one_negative : NegSampler
one_negative = some (λ num padding. (replicate num 1, replicate num 7))

one_negative-Draws :
    Draws one_negative two_links two_links.neg_sampling (1 ∷ [], 7 ∷ []) (some (1 ∷ 1 ∷ 0 ∷ []))
unfolding ceil_times
one_negative-Draws = (λ num padding. (replicate num 1, replicate num 7), refl, refl, refl, refl)

sample_from_edges-links_example :
    (out : SamplerOutput Metadata) × (index : List ℕ × List ℕ) × (sample_from_edges concrete
        next_node distinct one_negative two_hops two_links
      ≡ some out)
    × (out.metadata ≡ some (links index (some (1 ∷ 1 ∷ 0 ∷ []))))
    × (gather out.node index.0 ≡ some (1 ∷ 2 ∷ 1 ∷ []))
    × (gather out.node index.1 ≡ some (2 ∷ 3 ∷ 7 ∷ []))
sample_from_edges-links_example =
    sample_from_edges-links concrete next_node next_node-IsSampler distinct one_negative two_hops
      two_links (1 ∷ [], 7 ∷ []) (some (1 ∷ 1 ∷ 0 ∷ [])) (omega arith) refl one_negative-Draws refl
      refl

abbrev uneven : Dict EdgeType (List ℕ)
uneven = (("u", "to", "i"), 3 ∷ 2 ∷ []) ∷ (("i", "by", "u"), 5 ∷ []) ∷ []

set_num_neighbors-HaveHops_example :
    ((set_num_neighbors_and_num_hops [] (per_type uneven) ≡ some (uneven, 2)) ↔ HaveHops 2 uneven)
    × ((set_num_neighbors_and_num_hops [] (per_type uneven) ≡ none) ↔ (¬ HaveHops 2 uneven))
set_num_neighbors-HaveHops_example =
    set_num_neighbors-HaveHops [] (per_type uneven) ("u", "to", "i") (3 ∷ 2 ∷ [])
      ((("i", "by", "u"), 5 ∷ []) ∷ []) 2 refl
