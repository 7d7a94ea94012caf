-- ===== src/Distributed/Message.antt =====
-- The messages between a distributed sampler and its loader: `_colloate_fn` of
-- graphlearn_torch/python/distributed/dist_neighbor_sampler.py packs a sample of a homogeneous graph,
-- `_collate_fn` of graphlearn_torch/python/distributed/dist_loader.py unpacks it, and `to_data` of
-- graphlearn_torch/python/loader/transform.py makes the data for training.
use graphlearn_for_pytorch.Prelude.{
  ℕ, ◌≡◌, ◌↔◌, refl, Bool, true, false, ◌&&◌, Option, none, some, List, [], ◌∷◌, if◌then◌else◌,
  length, take, ◌>>=◌, ◌>>◌, Eq, string_keys, Dict, lookup, insert, arith,
}
use text.Mathlib.Text.{◌==◌ as str_eq}
use text.Mathlib.TextEquality.{eq_iff}
use graphlearn_for_pytorch.Typing.{String}
use graphlearn_for_pytorch.Torch.{Torch}
use graphlearn_for_pytorch.Sampler.Base.{EdgeId, SamplerOutput}
pub mod RoundTrip

-- The keys `#META.k` and all others.
pub data Key : Type 0 where
  meta : String → Key
  plain : String → Key

abbrev key_eq : Key → Key → Bool
key_eq (meta k) (meta l) = str_eq k l
key_eq (plain k) (plain l) = str_eq k l
key_eq (meta k) (plain l) = false
key_eq (plain k) (meta l) = false

pub key_eq_iff : (k l : Key) → (key_eq k l ≡ true) ↔ (k ≡ l)
key_eq_iff (meta k) (meta l) = ground (arith, eq_iff k l)
key_eq_iff (plain k) (plain l) = ground (arith, eq_iff k l)
key_eq_iff (meta k) (plain l) = (λ h. cc, λ h. cc)
key_eq_iff (plain k) (meta l) = (λ h. cc, λ h. cc)

instance abbrev pub message_keys : Eq Key
message_keys = record { beq = key_eq; beq_iff = key_eq_iff }

-- Tensors of what they are used for, and `nothing` for None.
pub data Value (Row Label : Type 0) : Type 0 where
  flag : Bool → Value Row Label
  ids_value : List ℕ → Value Row Label
  eids_value : List EdgeId → Value Row Label
  labels_value : List Label → Value Row Label
  rows_value : List Row → Value Row Label
  pair_value : List ℕ → List ℕ → Value Row Label
  nothing : Value Row Label

abbrev pub SampleMessage : Type 0 → Type 0 → Type 0
SampleMessage Row Label = Dict Key (Value Row Label)

abbrev pub MessageMetadata : Type 0 → Type 0 → Type 0
MessageMetadata Row Label = Dict String (Value Row Label)

-- What the sampler collects beside the sample: the labels, and the lookups of features.
pub record Collected (Row Label : Type 0) : Type 0 where
  pub with_edge : Bool
  pub node_labels : Option (List Label)
  pub dist_node_feature : Option (List ℕ → Option (List Row))
  pub dist_edge_feature : Option (List EdgeId → Option (List Row))

module _ {Row Label : Type 0} where
  abbrev pub put_metadata :
      SampleMessage Row Label → MessageMetadata Row Label → SampleMessage Row Label
  put_metadata result_map [] = result_map
  put_metadata result_map ((k, v) ∷ metadata) = put_metadata (insert result_map (meta k) v) metadata

  abbrev pub eids_or_none : Option (List EdgeId) → Value Row Label
  eids_or_none none = nothing
  eids_or_none (some eids) = eids_value eids

  abbrev pub metadata_of : Option (MessageMetadata Row Label) → MessageMetadata Row Label
  metadata_of none = []
  metadata_of (some metadata) = metadata

  -- The entries of every message, before labels and features.
  abbrev pub put_sample : Bool → SamplerOutput (MessageMetadata Row Label) → SampleMessage Row Label
  put_sample with_edge output =
      let start =
        put_metadata ((plain "#IS_HETERO", flag false) ∷ []) (metadata_of output.metadata) in
      let result_map =
        insert
          (insert (insert start (plain "ids") (ids_value output.node)) (plain "rows")
            (ids_value output.row))
          (plain "cols") (ids_value output.col) in
      if with_edge
      then insert result_map (plain "eids") (eids_or_none output.edge_ids)
      else result_map

  abbrev pub put_labels :
      Torch
      → Option (List Label)
      → List ℕ
      → SampleMessage Row Label
      → Option (SampleMessage Row Label)
  put_labels torch none nodes result_map = some result_map
  put_labels torch (some node_labels) nodes result_map = torch.index node_labels nodes >>= λ labels.
      some (insert result_map (plain "nlabels") (labels_value labels))

  abbrev pub put_nfeats :
      Option (List ℕ → Option (List Row))
      → List ℕ
      → SampleMessage Row Label
      → Option (SampleMessage Row Label)
  put_nfeats none nodes result_map = some result_map
  put_nfeats (some async_get) nodes result_map =
      async_get nodes >>= λ nfeats. some (insert result_map (plain "nfeats") (rows_value nfeats))

  abbrev pub as_eids : Value Row Label → Option (List EdgeId)
  as_eids (eids_value eids) = some eids
  as_eids (flag b) = none
  as_eids (ids_value ids) = none
  as_eids (labels_value labels) = none
  as_eids (rows_value rows) = none
  as_eids (pair_value a b) = none
  as_eids nothing = none

  abbrev pub put_efeats :
      Option (List EdgeId → Option (List Row))
      → SampleMessage Row Label
      → Option (SampleMessage Row Label)
  put_efeats none result_map = some result_map
  put_efeats (some async_get) result_map = do
    value ← lookup result_map (plain "eids")
    eids ← as_eids value
    efeats ← async_get eids
    some (insert result_map (plain "efeats") (rows_value efeats))

  unfoldable pub colloate_fn :
      Torch
      → Collected Row Label
      → SamplerOutput (MessageMetadata Row Label)
      → Option (SampleMessage Row Label)
  colloate_fn torch self output = do
    labelled ← put_labels torch self.node_labels output.node (put_sample self.with_edge output)
    featured ← put_nfeats self.dist_node_feature output.node labelled
    put_efeats self.dist_edge_feature featured

  -- `value.to(device)`: the tensor itself; None has no `to`.
  abbrev pub to_device : Value Row Label → Option (Value Row Label)
  to_device (flag b) = some (flag b)
  to_device (ids_value ids) = some (ids_value ids)
  to_device (eids_value eids) = some (eids_value eids)
  to_device (labels_value labels) = some (labels_value labels)
  to_device (rows_value rows) = some (rows_value rows)
  to_device (pair_value a b) = some (pair_value a b)
  to_device nothing = none

  -- `metadata[k[6:]] = msg[k].to(device)` for the keys that begin with `#META.`; the keys of a
  -- message differ.
  abbrev pub metadata_in : SampleMessage Row Label → Option (MessageMetadata Row Label)
  metadata_in [] = some []
  metadata_in ((meta k, v) ∷ msg) = do
    value ← to_device v
    metadata ← metadata_in msg
    some ((k, value) ∷ metadata)
  metadata_in ((plain k, v) ∷ msg) = metadata_in msg

  abbrev pub none_if_empty : MessageMetadata Row Label → Option (MessageMetadata Row Label)
  none_if_empty [] = none
  none_if_empty (entry ∷ metadata) = some (entry ∷ metadata)

  abbrev pub as_ids : Value Row Label → Option (List ℕ)
  as_ids (ids_value ids) = some ids
  as_ids (flag b) = none
  as_ids (eids_value eids) = none
  as_ids (labels_value labels) = none
  as_ids (rows_value rows) = none
  as_ids (pair_value a b) = none
  as_ids nothing = none

  abbrev pub as_labels : Value Row Label → Option (List Label)
  as_labels (labels_value labels) = some labels
  as_labels (flag b) = none
  as_labels (ids_value ids) = none
  as_labels (eids_value eids) = none
  as_labels (rows_value rows) = none
  as_labels (pair_value a b) = none
  as_labels nothing = none

  abbrev pub as_rows : Value Row Label → Option (List Row)
  as_rows (rows_value rows) = some rows
  as_rows (flag b) = none
  as_rows (ids_value ids) = none
  as_rows (eids_value eids) = none
  as_rows (labels_value labels) = none
  as_rows (pair_value a b) = none
  as_rows nothing = none

  -- `msg[k].to(device) if k in msg else None`; `nothing` has no `to`.
  abbrev pub optional :
      {A : Type 0} → (Value Row Label → Option A) → Option (Value Row Label) → Option (Option A)
  optional read none = some none
  optional read (some value) = read value >>= λ a. some (some a)

  -- `msg[k].to(device)`
  abbrev pub required :
      {A : Type 0} → (Value Row Label → Option A) → Option (Value Row Label) → Option A
  required read found = found >>= read

-- The data for training, with the attributes that come from the metadata.
pub record Data (Row Label : Type 0) : Type 0 where
  pub x : Option (List Row)
  pub edge_index : List ℕ × List ℕ
  pub edge_attr : Option (List Row)
  pub y : Option (List Label)
  pub edge_ids : Option (List EdgeId)
  pub node : List ℕ
  pub batch : Option (List ℕ)
  pub batch_size : ℕ
  pub attributes : MessageMetadata Row Label

abbrev pub batch_size_of : Option (List ℕ) → ℕ
batch_size_of none = 0
batch_size_of (some batch) = length batch

module _ {Row Label : Type 0} where
  abbrev pub swapped : String → Value Row Label → Option (Value Row Label)
  swapped k (pair_value a b) = some (pair_value b a)
  swapped k (ids_value ids) = none
  swapped k (flag b) = none
  swapped k (eids_value eids) = none
  swapped k (labels_value labels) = none
  swapped k (rows_value rows) = none
  swapped k nothing = none

  -- `edge_label_index` is reversed, and raises if it is no pair; all else is taken over.
  abbrev pub attributes_of : MessageMetadata Row Label → Option (MessageMetadata Row Label)
  attributes_of [] = some []
  attributes_of ((k, v) ∷ metadata) = do
    value ← if str_eq k "edge_label_index" then swapped k v else some v
    attributes ← attributes_of metadata
    some ((k, value) ∷ attributes)

  unfoldable pub to_data :
      SamplerOutput (MessageMetadata Row Label)
      → Option (List Label)
      → Option (List Row)
      → Option (List Row)
      → Option (Data Row Label)
  to_data sampler_out batch_labels node_feats edge_feats = do
    attributes ← attributes_of (metadata_of sampler_out.metadata)
    some (record {
      x = node_feats;
      edge_index = (sampler_out.row, sampler_out.col);
      edge_attr = edge_feats;
      y = batch_labels;
      edge_ids = sampler_out.edge_ids;
      node = sampler_out.node;
      batch = sampler_out.batch;
      batch_size = batch_size_of sampler_out.batch;
      attributes = attributes;
    })

  -- The seeds and their labels, for samples from nodes and for subgraphs.
  abbrev pub batch_of :
      Bool → ℕ → List ℕ → SampleMessage Row Label → Option (Option (List ℕ) × Option (List Label))
  batch_of false batch_size ids msg = some (none, none)
  batch_of true batch_size ids msg = optional as_labels (lookup msg (plain "nlabels")) >>= λ labels.
      some (some (take batch_size ids), labels)

  -- `of_nodes` is `sampling_type in [NODE, SUBGRAPH]`.
  unfoldable pub collate_fn : Bool → ℕ → SampleMessage Row Label → Option (Data Row Label)
  unfolding to_data
  collate_fn of_nodes batch_size msg = do
    metadata ← metadata_in msg
    ids ← required as_ids (lookup msg (plain "ids"))
    rows ← required as_ids (lookup msg (plain "rows"))
    cols ← required as_ids (lookup msg (plain "cols"))
    eids ← optional as_eids (lookup msg (plain "eids"))
    nfeats ← optional as_rows (lookup msg (plain "nfeats"))
    efeats ← optional as_rows (lookup msg (plain "efeats"))
    (batch, batch_labels) ← batch_of of_nodes batch_size ids msg
    to_data
        (record {
          node = ids;
          row = cols;
          col = rows;
          edge_ids = eids;
          batch = batch;
          metadata = none_if_empty metadata;
        })
        batch_labels nfeats efeats
