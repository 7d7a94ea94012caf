-- ===== src/Sampler/Base.antt =====
-- graphlearn_torch/python/sampler/base.py: what a sampler takes and what it returns. Devices and
-- shared memory are left out: `to` and `share_memory` return the object as it is.
use graphlearn_for_pytorch.Prelude.{
  ℕ, ◌+◌, ◌-◌, ◌*◌, ◌/◌, ◌%◌, Bool, true, false, Option, none, some, List, [], ◌∷◌, ◌==◌, ltb,
  if◌then◌else◌, ◌>>=◌, ◌>>◌, assert, Dict, insert, lookup, traverse, triple_keys,
}
use graphlearn_for_pytorch.Torch.{Torch}
use graphlearn_for_pytorch.Typing.{NodeType, EdgeType}

-- Edge ids, of which -1 marks an edge that stands for a missing neighbor.
pub data EdgeId : Type 0 where
  edge : ℕ → EdgeId
  minus_one : EdgeId

pub record EdgeIndex : Type 0 where
  pub edge_index : List ℕ × List ℕ
  pub e_id : Option (List EdgeId)
  pub size : ℕ × ℕ

pub record NodeSamplerInput : Type 0 where
  pub node : List ℕ
  pub input_type : Option NodeType

pub data NegativeSamplingMode : Type 0 where
  binary triplet : NegativeSamplingMode

-- A positive number as a fraction, whose denominator is not zero.
pub record Fraction : Type 0 where
  pub num : ℕ
  pub den : ℕ

-- `math.ceil(n * amount)`
unfoldable pub ceil_times : ℕ → Fraction → ℕ
ceil_times n amount = (n * amount.num + (amount.den - 1)) / amount.den

pub record NegativeSampling : Type 0 where
  pub mode : NegativeSamplingMode
  pub amount : Fraction

unfoldable pub is_binary : NegativeSampling → Bool
is_binary self = elim self.mode [ binary ↦ true | triplet ↦ false ]

unfoldable pub is_triplet : NegativeSampling → Bool
is_triplet self = elim self.mode [ binary ↦ false | triplet ↦ true ]

-- `__init__`: the amount is positive, and a whole number for triplets.
unfoldable pub new_negative_sampling : NegativeSamplingMode → Fraction → Option NegativeSampling
unfolding is_triplet ceil_times
new_negative_sampling mode amount =
    let self : NegativeSampling = record { mode = mode; amount = amount } in
    assert (ltb 0 amount.num)
    >> (if is_triplet self
        then (assert (amount.num % amount.den == 0)
            >> some (record self { amount = record { num = ceil_times 1 amount; den = 1 } }))
        else some self)

pub record EdgeSamplerInput (Label : Type 0) : Type 0 where
  pub row : List ℕ
  pub col : List ℕ
  pub label : Option (List Label)
  pub input_type : Option EdgeType
  pub neg_sampling : Option NegativeSampling

pub record SamplerOutput (Metadata : Type 0) : Type 0 where
  pub node : List ℕ
  pub row : List ℕ
  pub col : List ℕ
  pub edge_ids : Option (List EdgeId)
  pub batch : Option (List ℕ)
  pub metadata : Option Metadata

pub record HeteroSamplerOutput (Metadata : Type 0) : Type 0 where
  pub node : Dict NodeType (List ℕ)
  pub row : Dict EdgeType (List ℕ)
  pub col : Dict EdgeType (List ℕ)
  pub edge_ids : Option (Dict EdgeType (List EdgeId))
  pub batch : Option (Dict NodeType (List ℕ))
  pub edge_types : Option (List EdgeType)
  pub input_type : Option EdgeType
  pub metadata : Option Metadata

pub record NeighborOutput : Type 0 where
  pub nbr : List ℕ
  pub nbr_num : List ℕ
  pub edge_ids : Option (List EdgeId)

module _ (torch : Torch) where
  -- `NodeSamplerInput.__getitem__`
  unfoldable pub node_items : NodeSamplerInput → List ℕ → Option NodeSamplerInput
  node_items self index = do
    node ← torch.index self.node index
    some (record { node = node; input_type = self.input_type })

  abbrev label_items :
      {Label : Type 0} → Option (List Label) → List ℕ → Option (Option (List Label))
  label_items none index = some none
  label_items (some label) index = torch.index label index >>= λ items. some (some items)

  -- `EdgeSamplerInput.__getitem__`
  unfoldable pub edge_items :
      {Label : Type 0} → EdgeSamplerInput Label → List ℕ → Option (EdgeSamplerInput Label)
  edge_items self index = do
    row ← torch.index self.row index
    col ← torch.index self.col index
    label ← label_items self.label index
    some (record {
      row = row;
      col = col;
      label = label;
      input_type = self.input_type;
      neg_sampling = self.neg_sampling;
    })

abbrev with_col : Dict EdgeType (List ℕ) → EdgeType × List ℕ → Option (EdgeType × (List ℕ × List ℕ))
with_col cols (k, v) = lookup cols k >>= λ col. some (k, (v, col))

-- The loop over `edge_types`: an empty index for an edge type that has none.
abbrev fill_types :
    List EdgeType → Dict EdgeType (List ℕ × List ℕ) → Dict EdgeType (List ℕ × List ℕ)
fill_types [] edge_index = edge_index
fill_types (etype ∷ etypes) edge_index = fill_types etypes (elim (lookup edge_index etype) [
  | none ↦ insert edge_index etype ([], [])
  | some index ↦ edge_index
])

unfoldable pub get_edge_index :
    {Metadata : Type 0} → HeteroSamplerOutput Metadata → Option (Dict EdgeType (List ℕ × List ℕ))
get_edge_index self = do
  edge_index ← traverse (with_col self.col) self.row
  some (elim self.edge_types [ none ↦ edge_index | some etypes ↦ fill_types etypes edge_index ])
