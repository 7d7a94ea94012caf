-- ===== src/Sampler/Neighbor/Bounds.antt =====
-- The room that `_max_sampled_nodes` reserves is enough for every sample.
use native.Mathlib.Nat.{mul-le-mul_right}
use graphlearn_for_pytorch.Prelude.{
  ℕ, ◌+◌, ◌*◌, ◌≤◌, ◌<◌, ◌≡◌, inl, inr, refl, ap, ◌∙◌, Bool, some, List, [], ◌∷◌, ◌++◌, map, pos,
  ◌+ℤ◌, +ℤ-pos, *ℤ-pos, sum, arith, ◌==◌, length, length-append, Bool-cases, sym, some_inj,
}
use graphlearn_for_pytorch.Torch.{Torch, contains}
use graphlearn_for_pytorch.Sampler.Base.{SamplerOutput}
use graphlearn_for_pytorch.Sampler.Inducer.Numbering.{fresh, fresh_known, fresh_new}
use graphlearn_for_pytorch.Sampler.Inducer.Edges.{total, AllIn, AllIn-self, AllIn-append_right}
use graphlearn_for_pytorch.Sampler.Neighbor.{
  OneHop, NeighborSampler, sample_one_hop, sample_from_nodes, hop_sizes, sum_sizes,
  max_sampled_nodes,
}
use graphlearn_for_pytorch.Sampler.Neighbor.Relabels.{
  IsSampler, AtMost, reference, sample_from_nodes-IsSample,
}

-- The sizes of the hops where no entry is -1.
abbrev plain_sizes : ℕ → List ℕ → List ℕ
plain_sizes last [] = last ∷ []
plain_sizes last (num ∷ nums) = last ∷ plain_sizes (last * num) nums

hop_sizes-pos :
    (last : ℕ) (nums : List ℕ)
    → sum_sizes (hop_sizes (pos last) (map pos nums)) ≡ pos (sum (plain_sizes last nums))
unfolding hop_sizes
hop_sizes-pos last [] = +ℤ-pos last 0
hop_sizes-pos last (num ∷ nums) =
    ap (λ n. pos last +ℤ sum_sizes (hop_sizes n (map pos nums))) (*ℤ-pos last num)
    ∙ ap (λ n. pos last +ℤ n) (hop_sizes-pos (last * num) nums)
    ∙ +ℤ-pos last (sum (plain_sizes (last * num) nums))

fresh-le-length : (vs seen : List ℕ) → length (fresh seen vs) ≤ length vs
fresh-le-length [] seen = omega arith
fresh-le-length (v ∷ vs) seen = elim (Bool-cases (contains seen v)) [
  | inl e ↦ rw (fresh_known seen v vs e) (omega (arith, fresh-le-length vs seen))
  | inr e ↦ rw (fresh_new seen v vs e) (omega (arith, fresh-le-length vs (seen ++ v ∷ [])))
]

fresh_of_seen : (vs seen : List ℕ) → AllIn seen vs → fresh seen vs ≡ []
fresh_of_seen [] seen h = refl
fresh_of_seen (v ∷ vs) seen h = fresh_known seen v vs h.0 ∙ fresh_of_seen vs seen h.1

total-le : (n : ℕ) (ms : List ℕ) → AtMost n ms → total ms ≤ length ms * n
total-le n [] h = omega arith
total-le n (m ∷ ms) h = grind (arith, h.0, total-le n ms h.1)

module _ (pywrap : OneHop) (ok : IsSampler pywrap) (with_edge : Bool) where
  found-le :
      (call : ℕ) (seen srcs : List ℕ) (req : ℕ)
      → AllIn seen srcs
      → length (fresh seen (sample_one_hop pywrap with_edge call srcs req).nbr) ≤ length srcs * req
  unfolding sample_one_hop
  found-le call seen srcs req all = elim (Bool-cases (length (pywrap call srcs req).nbrs == 0)) [
    | inl e ↦ rw (e, fresh_of_seen srcs seen all) (omega arith)
    | inr e ↦ rw e (
        omega (
          arith,
          fresh-le-length (pywrap call srcs req).nbrs seen,
          ok.sums call srcs req,
          total-le req (pywrap call srcs req).nbrs_num (ok.at_most call srcs req),
          ap (λ (n : ℕ). n * req) (ok.sizes call srcs req),
        ))
  ]

  reference-le :
      (reqs : List ℕ) (call m : ℕ) (seen srcs : List ℕ)
      → AllIn seen srcs
      → length srcs ≤ m
      → length srcs + length (reference pywrap with_edge reqs call seen srcs).nodes
        ≤ sum (plain_sizes m reqs)
  unfolding reference
  reference-le [] call m seen srcs all le = omega arith
  reference-le (req ∷ reqs) call m seen srcs all le =
      let found : List ℕ = fresh seen (sample_one_hop pywrap with_edge call srcs req).nbr in
      let few : length found ≤ length srcs * req = found-le call seen srcs req all in
      let more : length srcs * req ≤ m * req = mul-le-mul_right req le in
      let rest =
        reference-le reqs (call + 1) (m * req) (seen ++ found) found
          (AllIn-append_right seen found found (AllIn-self found)) (omega (arith, few, more)) in
      omega (
        arith,
        rest,
        le,
        length-append {0} found
            (reference pywrap with_edge reqs (call + 1) (seen ++ found) found).nodes,
      )

module _ (torch : Torch) (pywrap : OneHop) (ok : IsSampler pywrap) {Metadata : Type 0} where
  -- With numbers of neighbors for at least one hop, none of them -1, and a one-hop sampler that gives
  -- no more neighbors than it is asked for, a sample has at most as many nodes as
  -- `_max_sampled_nodes` counts for the number of its seeds, which is no negative number.
  pub sample_from_nodes-le-max_sampled :
      (self : NeighborSampler) (seeds : List ℕ) (out : SamplerOutput Metadata)
      → 0 < length self.num_neighbors
      → sample_from_nodes torch pywrap self seeds ≡ some out
      → (m : ℕ) × (max_sampled_nodes (map pos self.num_neighbors) (length seeds) ≡ pos m)
        × (length out.node ≤ m)
  unfolding max_sampled_nodes
  sample_from_nodes-le-max_sampled self seeds out some_hop run =
      let (out', run', sample) =
        sample_from_nodes-IsSample torch pywrap ok {Metadata = Metadata} self seeds some_hop in
      let first : List ℕ = fresh [] seeds in
      let same : length out.node ≡ length out'.node =
        ap (λ (o : SamplerOutput Metadata). length o.node) (some_inj (sym run ∙ run')) in
      (
        sum (plain_sizes (length seeds) self.num_neighbors),
        hop_sizes-pos (length seeds) self.num_neighbors,
        omega (
          arith,
          same,
          ap length sample.nodes_are,
          length-append {0} first
              (reference pywrap self.with_edge self.num_neighbors 0 first first).nodes,
          reference-le pywrap ok self.with_edge self.num_neighbors 0 (length seeds) first first
              (AllIn-self first) (fresh-le-length seeds []),
        ),
      )
