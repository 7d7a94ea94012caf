-- ===== src/Tests/DistSampling.antt =====
-- A sample of three seeds from two partitions.
use graphlearn_for_pytorch.Prelude.{
  ℕ, zero, suc, ◌≡◌, refl, inl, inr, true, false, Option, none, some, List, [], ◌∷◌, ◌==◌, length,
  range, arith, Bool-cases,
}
use graphlearn_for_pytorch.Torch.Concrete.{concrete}
use graphlearn_for_pytorch.Sampler.Base.{EdgeId, edge, NeighborOutput}
use graphlearn_for_pytorch.Distributed.Feature.Lookup.{chosen, places}
use graphlearn_for_pytorch.Distributed.Sampler.{DistNeighborSampler, ask, dist_one_hop}
use graphlearn_for_pytorch.Distributed.Sampler.Slots.{flat}
use graphlearn_for_pytorch.Distributed.Sampler.Stitched.{dist_one_hop-flat, dist_one_hop-no_seeds}

-- The seed 0 has one neighbor, the seed 1 two and the seed 2 none.
abbrev found : ℕ → List (ℕ × EdgeId)
found zero = (7, edge 0) ∷ []
found (suc zero) = (8, edge 3) ∷ (9, edge 4) ∷ []
found (suc (suc i)) = []

abbrev two_parts : DistNeighborSampler
two_parts = record {
  num_partitions = 2;
  partition_idx = 1;
  node_pb = 0 ∷ 1 ∷ 0 ∷ [];
  with_edge = true;
}

abbrev own_answer : List ℕ → ℕ → Option NeighborOutput
own_answer ids num_nbr = some (flat true found ids)

abbrev other_answer : ℕ → List ℕ → ℕ → Option NeighborOutput
other_answer pidx ids num_nbr = some (flat true found ids)

answered :
    (pidx : ℕ)
    → (length (chosen (0 ∷ 1 ∷ 2 ∷ []) (0 ∷ 1 ∷ 0 ∷ []) pidx) == 0) ≡ false
    → ask concrete own_answer other_answer
        (pidx == 1)
        pidx
        (chosen (0 ∷ 1 ∷ 2 ∷ []) (0 ∷ 1 ∷ 0 ∷ []) pidx)
        2
      ≡ some (flat true found (places (0 ∷ 1 ∷ 2 ∷ []) (0 ∷ 1 ∷ 0 ∷ []) pidx))
answered pidx used = elim (Bool-cases (pidx == 1)) [ inl e ↦ rw e refl | inr e ↦ rw e refl ]

dist_one_hop-flat_example :
    dist_one_hop concrete own_answer other_answer two_parts (0 ∷ 1 ∷ 2 ∷ []) 2
    ≡ some (flat true found (range 3))
dist_one_hop-flat_example =
    dist_one_hop-flat concrete two_parts own_answer other_answer (0 ∷ 1 ∷ 2 ∷ []) (0 ∷ 1 ∷ 0 ∷ []) 2
      found (omega arith) (omega arith) refl (omega arith, (omega arith, (omega arith, tt)))
      answered

dist_one_hop-no_seeds_example : dist_one_hop concrete own_answer other_answer two_parts [] 5 ≡ none
dist_one_hop-no_seeds_example = dist_one_hop-no_seeds concrete two_parts own_answer other_answer 5
