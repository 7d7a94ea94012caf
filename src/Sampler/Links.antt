-- ===== src/Sampler/Links.antt =====
-- `NeighborSampler.sample_from_edges` of graphlearn_torch/python/sampler/neighbor_sampler.py on a
-- homogeneous graph: the neighborhoods of links, and of links that are not in the graph.
use graphlearn_for_pytorch.Prelude.{
  ℕ, zero, suc, ◌+◌, ◌*◌, ◌/◌, ◌%◌, ◌≡◌, Bool, true, false, Option, none, some, List, [], ◌∷◌, ◌++◌,
  ◌==◌, if◌then◌else◌, ◌>>=◌, ◌>>◌, assert, length, take, drop, replicate, get_elem?,
}
use graphlearn_for_pytorch.Torch.{Torch, gather}
use graphlearn_for_pytorch.Typing.{EdgeType}
use graphlearn_for_pytorch.Sampler.Base.{
  EdgeSamplerInput, NegativeSampling, NegativeSamplingMode, binary, triplet, ceil_times,
  SamplerOutput,
}
use graphlearn_for_pytorch.Sampler.Neighbor.{OneHop, NeighborSampler, sample_from_nodes}
pub mod Endpoints

-- `torch.unique(t, return_inverse=True)`: the items of `t` without repeats, and for each place of
-- `t` the position of its item among them.
pub record Unique : Type 0 where
  pub unique : List ℕ → List ℕ × List ℕ
  pub inverse_law : (t : List ℕ) → gather (unique t).0 (unique t).1 ≡ some t
  pub once_law :
      (t : List ℕ) (i j v : ℕ)
      → get_elem? (unique t).0 i ≡ some v
      → get_elem? (unique t).0 j ≡ some v
      → i ≡ j

-- `RandomNegativeSampler.sample(num, padding)`; nothing where `with_neg` is false.
abbrev pub NegSampler : Type 0
NegSampler = Option (ℕ → Bool → List ℕ × List ℕ)

pub data Metadata : Type 0 where
  links : (edge_label_index : List ℕ × List ℕ) (edge_label : Option (List ℕ)) → Metadata
  triplets : (src_index dst_pos_index : List ℕ) (dst_neg_index : List (List ℕ)) → Metadata

-- The links with the negative ones appended.
pub record Links : Type 0 where
  pub src : List ℕ
  pub dst : List ℕ
  pub edge_label : Option (List ℕ)

abbrev pub labels_or_ones : Option (List ℕ) → ℕ → List ℕ
labels_or_ones none num_pos = replicate num_pos 1
labels_or_ones (some label) num_pos = label

abbrev pub no_label : Option (List ℕ) → Option (Unit {0})
no_label none = some tt
no_label (some label) = none

-- The remainder of a division by the number of links; Python raises on a division by zero.
abbrev pub divides : ℕ → ℕ → Option (Unit {0})
divides zero n = none
divides (suc m) n = assert (n % suc m == 0)

unfoldable pub add_negatives : NegSampler → EdgeSamplerInput ℕ → Option Links
add_negatives neg_sampler inputs = elim inputs.neg_sampling [
  | none ↦ some (record { src = inputs.row; dst = inputs.col; edge_label = inputs.label })
  | some neg_sampling ↦ elim neg_sampling.mode [
    | binary ↦ neg_sampler >>= λ sample.
        let num_pos = length inputs.row in
        let num_neg = ceil_times num_pos neg_sampling.amount in
        let neg_pair = sample num_neg false in
        some (record {
          src = inputs.row ++ neg_pair.0;
          dst = inputs.col ++ neg_pair.1;
          edge_label = some (labels_or_ones inputs.label num_pos ++ replicate num_neg 0);
        })
    | triplet ↦
        let num_pos = length inputs.row in
        let num_neg = ceil_times num_pos neg_sampling.amount in
        divides num_pos num_neg
        >> (neg_sampler >>= λ sample.
            no_label inputs.label
            >> some (record {
              src = inputs.row;
              dst = inputs.col ++ (sample num_neg true).1;
              edge_label = none;
            }))
  ]
]

-- `t.view(2, -1)` raises if the number of items is odd.
abbrev pub halves : List ℕ → Option (List ℕ × List ℕ)
halves t = assert (length t % 2 == 0) >> some (take (length t / 2) t, drop (length t / 2) t)

abbrev pub rows_of : ℕ → ℕ → List ℕ → List (List ℕ)
rows_of zero width t = []
rows_of (suc n) width t = take width t ∷ rows_of n width (drop width t)

-- `t.view(n, -1)`
abbrev pub view : ℕ → List ℕ → Option (List (List ℕ))
view zero t = none
view (suc n) t = assert (length t % suc n == 0) >> some (rows_of (suc n) (length t / suc n) t)

-- The metadata for pairs and for triplets, from the positions of the seeds.
abbrev pub metadata_mode : NegativeSamplingMode → ℕ → Option (List ℕ) → List ℕ → Option Metadata
metadata_mode binary num_pos edge_label inverse_seed =
    halves inverse_seed >>= λ index. some (links index edge_label)
metadata_mode triplet num_pos edge_label inverse_seed =
    view num_pos (drop (2 * num_pos) inverse_seed) >>= λ dst_neg_index.
    some (
      triplets (take num_pos inverse_seed) (take num_pos (drop num_pos inverse_seed)) dst_neg_index)

-- Without negative sampling, as for pairs.
abbrev pub metadata_for : Option NegativeSampling → ℕ → Option (List ℕ) → List ℕ → Option Metadata
metadata_for none = metadata_mode binary
metadata_for (some neg_sampling) = metadata_mode neg_sampling.mode

-- `if input_type is not None`: on a homogeneous graph that branch raises, at `.keys()` or `.items()`
-- of the sample's nodes and rows, which are tensors there, or before.
abbrev pub no_input_type : Option EdgeType → Option (Unit {0})
no_input_type none = some tt
no_input_type (some input_type) = none

unfoldable pub sample_from_edges :
    Torch
    → OneHop
    → Unique
    → NegSampler
    → NeighborSampler
    → EdgeSamplerInput ℕ
    → Option (SamplerOutput Metadata)
unfolding add_negatives
sample_from_edges torch pywrap torch_unique neg_sampler self inputs = do
  no_input_type inputs.input_type
  added ← add_negatives neg_sampler inputs
  let (seed, inverse_seed) = torch_unique.unique (added.src ++ added.dst)
  out ← sample_from_nodes torch pywrap self seed
  metadata ← metadata_for inputs.neg_sampling (length inputs.row) added.edge_label inverse_seed
  some (record out { metadata = some metadata })
