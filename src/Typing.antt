-- ===== src/Typing.antt =====
-- graphlearn_torch/python/typing.py: node and edge types, and the data of one partition.
pub use Prim.Native.String.{String}
use Prim.Native.String.{◌++◌}
use Prim.Native.Char.{code}
use text.Mathlib.Text.{◌==◌ as str_eq}
use graphlearn_for_pytorch.Prelude.{ℕ, List, Option, none, some, ◌==◌, if◌then◌else◌}
pub mod Reverse

abbrev pub NodeType : Type 0
NodeType = String

abbrev pub EdgeType : Type 0
EdgeType = String × String × String

abbrev edge_type_str_split : String
edge_type_str_split = "__"

-- `as_str` of a node type is the node type itself.
unfoldable pub as_str : EdgeType → String
as_str (src, edge, dst) = src ++ (edge_type_str_split ++ (edge ++ (edge_type_str_split ++ dst)))

-- `edge.split("_", 1)`: what stands before the first underscore, and what stands after it, if any.
unfoldable pub split_once : String → String × Option String
split_once String.[] = (String.[], none)
split_once (String.◌∷◌ c s) =
    let (before, after) = split_once s in
    if code c == b'_' then (String.[], some s) else (String.◌∷◌ c before, after)

-- `none`: the type is `rev` with no underscore, and `split("_", 1)[1]` is out of range.
unfoldable pub reverse_edge_type : EdgeType → Option EdgeType
unfolding split_once
reverse_edge_type (src, edge, dst) =
    let (before, after) = split_once edge in
    if str_eq src dst
    then some (dst, edge, src)
    else if str_eq before "rev"
    then elim after [ none ↦ none | some rest ↦ some (dst, rest, src) ]
    else some (dst, "rev_" ++ edge, src)

abbrev pub PartitionBook : Type 0
PartitionBook = List ℕ

pub record GraphPartitionData : Type 0 where
  -- rows and columns
  pub edge_index : List ℕ × List ℕ
  pub eids : List ℕ

-- A matrix of features is the list of its rows.
pub record FeaturePartitionData (Row : Type 0) : Type 0 where
  pub feats : List Row
  pub ids : List ℕ
  pub cache_feats : Option (List Row)
  pub cache_ids : Option (List ℕ)
