-- ===== src/Distributed/Message/RoundTrip.antt =====
-- A sample that is packed by `_colloate_fn` and unpacked by `_collate_fn`.
use mathlib.Core.Path.{subst}
use mathlib.Core.List.{append-nil, append_assoc}
use graphlearn_for_pytorch.Prelude.{
  ℕ, ◌≡◌, ◌≢◌, refl, sym, ap, ◌∙◌, inl, inr, Bool, true, false, Option, none, some, List, [], ◌∷◌,
  ◌++◌, if◌then◌else◌, take, ◌>>=◌, string_keys, lookup, insert, lookup-insert, Bool-cases,
}
use graphlearn_for_pytorch.Typing.{String}
use graphlearn_for_pytorch.Torch.{Torch}
use graphlearn_for_pytorch.Sampler.Base.{EdgeId, SamplerOutput}
use graphlearn_for_pytorch.Distributed.Message.{
  meta, plain, message_keys, Value, flag, ids_value, eids_value, labels_value, rows_value,
  pair_value, nothing, SampleMessage, MessageMetadata, Collected, put_metadata, eids_or_none,
  metadata_of, put_sample, put_labels, put_nfeats, as_eids, put_efeats, colloate_fn, to_device,
  metadata_in, none_if_empty, as_labels, as_rows, optional, batch_size_of, attributes_of, to_data,
  batch_of, collate_fn,
}

both_same : {A : Type 0} (b : Bool) (a : A) → a ≡ (if b then a else a)
both_same true a = refl
both_same false a = refl

-- A lookup that is made if there is something to look in.
abbrev pub Looked : {A C : Type 0} → (A → Option C) → Option A → Option C → Type 0
Looked look none found = found ≡ none
Looked {C = C} look (some a) found = (c : C) × (look a ≡ some c) × (found ≡ some c)

abbrev pub is_there : {A : Type 0} → Option A → Bool
is_there none = false
is_there (some a) = true

abbrev pub labels_if : {Label : Type 0} → Bool → Option (List Label) → Option (List Label)
labels_if true labels = labels
labels_if false labels = none

abbrev pub batch_if : Bool → ℕ → List ℕ → Option (List ℕ)
batch_if true batch_size ids = some (take batch_size ids)
batch_if false batch_size ids = none

module _ {Row Label : Type 0} where
  -- What stands at the keys of the metadata, before it is moved to the device.
  abbrev pub metadata_at : SampleMessage Row Label → MessageMetadata Row Label
  metadata_at [] = []
  metadata_at ((meta k, v) ∷ msg) = (k, v) ∷ metadata_at msg
  metadata_at ((plain k, v) ∷ msg) = metadata_at msg

  -- No value of the metadata is None.
  abbrev pub AllTensors : MessageMetadata Row Label → Type 0
  AllTensors [] = Unit
  AllTensors ((k, v) ∷ metadata) = (v ≢ nothing) × AllTensors metadata

  to_device-tensor : (v : Value Row Label) → v ≢ nothing → to_device v ≡ some v
  to_device-tensor (flag b) h = refl
  to_device-tensor (ids_value ids) h = refl
  to_device-tensor (eids_value eids) h = refl
  to_device-tensor (labels_value labels) h = refl
  to_device-tensor (rows_value rows) h = refl
  to_device-tensor (pair_value a b) h = refl
  to_device-tensor nothing h = absurd (h refl)

  metadata_in-eq-at :
      (msg : SampleMessage Row Label)
      → AllTensors (metadata_at msg)
      → metadata_in msg ≡ some (metadata_at msg)
  metadata_in-eq-at [] all = refl
  metadata_in-eq-at ((meta k, v) ∷ msg) (here, all) =
      rw (to_device-tensor v here, metadata_in-eq-at msg all) refl
  metadata_in-eq-at ((plain k, v) ∷ msg) all = metadata_in-eq-at msg all

  metadata-insert_plain :
      (msg : SampleMessage Row Label) (k : String) (v : Value Row Label)
      → metadata_at (insert msg (plain k) v) ≡ metadata_at msg
  metadata-insert_plain [] k v = refl
  metadata-insert_plain ((meta l, w) ∷ msg) k v =
      ap (λ ms. (l, w) ∷ ms) (metadata-insert_plain msg k v)
  metadata-insert_plain ((plain l, w) ∷ msg) k v = elim (Bool-cases (string_keys.beq l k)) [
    | inl e ↦ rw e refl
    | inr e ↦ rw e (metadata-insert_plain msg k v)
  ]

  metadata-insert_meta :
      (msg : SampleMessage Row Label) (k : String) (v : Value Row Label)
      → lookup (metadata_at msg) k ≡ none
      → metadata_at (insert msg (meta k) v) ≡ metadata_at msg ++ (k, v) ∷ []
  metadata-insert_meta [] k v h = refl
  metadata-insert_meta ((plain l, w) ∷ msg) k v h = metadata-insert_meta msg k v h
  metadata-insert_meta ((meta l, w) ∷ msg) k v h = elim (Bool-cases (string_keys.beq l k)) [
    | inl e ↦
        let clash : some w ≡ none =
          subst (λ b. (if b then some w else lookup (metadata_at msg) k) ≡ none) e h in
        absurd cc
    | inr e ↦ rw e (
        ap (λ ms. (l, w) ∷ ms)
          (metadata-insert_meta msg k v
            (subst (λ b. (if b then some w else lookup (metadata_at msg) k) ≡ none) e h)))
  ]

  -- The keys of the metadata differ from those before and from each other.
  abbrev pub Apart : MessageMetadata Row Label → MessageMetadata Row Label → Type 0
  Apart before [] = Unit
  Apart before ((k, v) ∷ metadata) =
      (lookup before k ≡ none) × Apart (before ++ (k, v) ∷ []) metadata

  metadata-put_metadata :
      (msg : SampleMessage Row Label) (metadata : MessageMetadata Row Label)
      → Apart (metadata_at msg) metadata
      → metadata_at (put_metadata msg metadata) ≡ metadata_at msg ++ metadata
  metadata-put_metadata msg [] apart = sym (append-nil (metadata_at msg))
  metadata-put_metadata msg ((k, v) ∷ metadata) (fresh, apart) =
      let added = metadata-insert_meta msg k v fresh in
      metadata-put_metadata (insert msg (meta k) v) metadata
        (subst (λ ms. Apart ms metadata) (sym added) apart)
      ∙ ap (λ ms. ms ++ metadata) added
      ∙ append_assoc (metadata_at msg) ((k, v) ∷ []) metadata

  lookup-put_metadata :
      (msg : SampleMessage Row Label) (metadata : MessageMetadata Row Label) (k : String)
      → lookup (put_metadata msg metadata) (plain k) ≡ lookup msg (plain k)
  lookup-put_metadata msg [] k = refl
  lookup-put_metadata msg ((l, v) ∷ metadata) k =
      lookup-put_metadata (insert msg (meta l) v) metadata k
      ∙ lookup-insert msg (meta l) v (plain k)

  abbrev or_else : Option (Value Row Label) → Option (Value Row Label) → Option (Value Row Label)
  or_else none other = other
  or_else (some v) other = some v

  -- The entries of a message at its plain keys, and its metadata.
  record Holds (msg : SampleMessage Row Label) (entries : String → Option (Value Row Label))
      (metadata : MessageMetadata Row Label) : Type 0 where
    at : (k : String) → lookup msg (plain k) ≡ entries k
    at_metadata : metadata_at msg ≡ metadata

  abbrev insert_some :
      SampleMessage Row Label → String → Option (Value Row Label) → SampleMessage Row Label
  insert_some msg k none = msg
  insert_some msg k (some v) = insert msg (plain k) v

  abbrev over :
      (String → Option (Value Row Label))
      → String
      → Option (Value Row Label)
      → String
      → Option (Value Row Label)
  over entries k o j = if string_keys.beq k j then or_else o (entries j) else entries j

  Holds-insert_some :
      (msg : SampleMessage Row Label) (entries : String → Option (Value Row Label))
      (metadata : MessageMetadata Row Label) (k : String) (o : Option (Value Row Label))
      → Holds msg entries metadata
      → Holds (insert_some msg k o) (over entries k o) metadata
  Holds-insert_some msg entries metadata k none h = record {
    at = λ j. h.at j ∙ both_same (string_keys.beq k j) (entries j);
    at_metadata = h.at_metadata;
  }
  Holds-insert_some msg entries metadata k (some v) h = record {
    at = λ j.
        lookup-insert msg (plain k) v (plain j)
        ∙ ap (λ o. if string_keys.beq k j then some v else o) (h.at j);
    at_metadata = metadata-insert_plain msg k v ∙ h.at_metadata;
  }

  abbrev in_message : {A : Type 0} → (A → Value Row Label) → Option A → Option (Value Row Label)
  in_message f none = none
  in_message f (some a) = some (f a)

  put_labels_lem :
      (torch : Torch) (o : Option (List Label)) (nodes : List ℕ) (msg : SampleMessage Row Label)
      (found : Option (List Label))
      → Looked (λ labels. torch.index labels nodes) o found
      → put_labels torch o nodes msg
        ≡ some (insert_some msg "nlabels" (in_message labels_value found))
  put_labels_lem torch none nodes msg found e = rw e refl
  put_labels_lem torch (some labels) nodes msg found (c, run, e) = rw (e, run) refl

  put_nfeats_lem :
      (o : Option (List ℕ → Option (List Row))) (nodes : List ℕ) (msg : SampleMessage Row Label)
      (found : Option (List Row))
      → Looked (λ async_get. async_get nodes) o found
      → put_nfeats o nodes msg ≡ some (insert_some msg "nfeats" (in_message rows_value found))
  put_nfeats_lem none nodes msg found e = rw e refl
  put_nfeats_lem (some async_get) nodes msg found (c, run, e) = rw (e, run) refl

  put_efeats_lem :
      (o : Option (List EdgeId → Option (List Row))) (eids : Option (List EdgeId))
      (msg : SampleMessage Row Label) (found : Option (List Row))
      → lookup msg (plain "eids") ≡ in_message eids_value eids
      → Looked (λ async_get. eids >>= async_get) o found
      → put_efeats o msg ≡ some (insert_some msg "efeats" (in_message rows_value found))
  put_efeats_lem none eids msg found at e = rw e refl
  put_efeats_lem (some async_get) none msg found at (c, run, e) = absurd cc
  put_efeats_lem (some async_get) (some ids) msg found at (c, run, e) = rw (e, at, run) refl

  -- The part of a message before labels and features.
  abbrev entries_of : SamplerOutput (MessageMetadata Row Label) → String → Option (Value Row Label)
  entries_of output =
      over
        (over
          (over
            (over (λ j. if string_keys.beq "#IS_HETERO" j then some (flag false) else none) "ids"
              (some (ids_value output.node)))
            "rows" (some (ids_value output.row)))
          "cols" (some (ids_value output.col)))
        "eids" (in_message eids_value output.edge_ids)

  eids_put :
      (msg : SampleMessage Row Label) (with_edge : Bool) (eids : Option (List EdgeId))
      → with_edge ≡ is_there eids
      → (if with_edge then insert msg (plain "eids") (eids_or_none eids) else msg)
        ≡ insert_some msg "eids" (in_message eids_value eids)
  eids_put msg with_edge none e = rw e refl
  eids_put msg with_edge (some ids) e = rw e refl

  put_sample_lem :
      (with_edge : Bool) (output : SamplerOutput (MessageMetadata Row Label))
      → with_edge ≡ is_there output.edge_ids
      → Apart [] (metadata_of output.metadata)
      → Holds (put_sample with_edge output) (entries_of output) (metadata_of output.metadata)
  put_sample_lem with_edge output edges apart =
      let metadata = metadata_of output.metadata in
      let start : SampleMessage Row Label =
        put_metadata ((plain "#IS_HETERO", flag false) ∷ []) metadata in
      let h0 : Holds start (λ j. if string_keys.beq "#IS_HETERO" j then some (flag false) else none)
          metadata =
        record {
          at = λ j. lookup-put_metadata ((plain "#IS_HETERO", flag false) ∷ []) metadata j;
          at_metadata =
              metadata-put_metadata ((plain "#IS_HETERO", flag false) ∷ []) metadata apart;
        } in
      let h1 = Holds-insert_some start _ metadata "ids" (some (ids_value output.node)) h0 in
      let h2 = Holds-insert_some _ _ metadata "rows" (some (ids_value output.row)) h1 in
      let h3 = Holds-insert_some _ _ metadata "cols" (some (ids_value output.col)) h2 in
      let h4 = Holds-insert_some _ _ metadata "eids" (in_message eids_value output.edge_ids) h3 in
      subst (λ m. Holds m (entries_of output) metadata)
        (sym (eids_put _ with_edge output.edge_ids edges)) h4

  read_back :
      {A : Type 0} (wrap : A → Value Row Label) (read : Value Row Label → Option A) (o : Option A)
      → ((a : A) → read (wrap a) ≡ some a)
      → optional read (in_message wrap o) ≡ some o
  read_back wrap read none h = refl
  read_back wrap read (some a) h = rw (h a) refl

  metadata_back :
      (o : Option (MessageMetadata Row Label))
      → metadata_of (none_if_empty (metadata_of o)) ≡ metadata_of o
  metadata_back none = refl
  metadata_back (some []) = refl
  metadata_back (some (entry ∷ metadata)) = refl

  or_else-none : (o : Option (Value Row Label)) → or_else o none ≡ o
  or_else-none none = refl
  or_else-none (some v) = refl

  batch_of_lem :
      (of_nodes : Bool) (batch_size : ℕ) (ids : List ℕ) (msg : SampleMessage Row Label)
      (labels : Option (List Label))
      → lookup msg (plain "nlabels") ≡ in_message labels_value labels
      → batch_of of_nodes batch_size ids msg
        ≡ some (batch_if of_nodes batch_size ids, labels_if of_nodes labels)
  batch_of_lem false batch_size ids msg labels e = refl
  batch_of_lem true batch_size ids msg labels e =
      rw (e, read_back labels_value as_labels labels (λ a. refl)) refl

  unpacked :
      (of_nodes : Bool) (batch_size : ℕ) (msg : SampleMessage Row Label)
      (output : SamplerOutput (MessageMetadata Row Label)) (labels : Option (List Label))
      (nfeats efeats : Option (List Row)) (attributes : MessageMetadata Row Label)
      → lookup msg (plain "ids") ≡ some (ids_value output.node)
      → lookup msg (plain "rows") ≡ some (ids_value output.row)
      → lookup msg (plain "cols") ≡ some (ids_value output.col)
      → lookup msg (plain "eids") ≡ in_message eids_value output.edge_ids
      → lookup msg (plain "nlabels") ≡ in_message labels_value labels
      → lookup msg (plain "nfeats") ≡ in_message rows_value nfeats
      → lookup msg (plain "efeats") ≡ in_message rows_value efeats
      → metadata_in msg ≡ some (metadata_of output.metadata)
      → attributes_of (metadata_of output.metadata) ≡ some attributes
      → collate_fn of_nodes batch_size msg
        ≡ some (record {
          x = nfeats;
          edge_index = (output.col, output.row);
          edge_attr = efeats;
          y = labels_if of_nodes labels;
          edge_ids = output.edge_ids;
          node = output.node;
          batch = batch_if of_nodes batch_size output.node;
          batch_size = batch_size_of (batch_if of_nodes batch_size output.node);
          attributes = attributes;
        })
  unfolding collate_fn to_data
  unpacked of_nodes batch_size msg output labels nfeats efeats attributes e1 e2 e3 e4 e5 e6 e7 e8
        attrs =
      rw
        (
          e8,
          e1,
          e2,
          e3,
          e4,
          read_back eids_value as_eids output.edge_ids (λ a. refl),
          e6,
          read_back rows_value as_rows nfeats (λ a. refl),
          e7,
          read_back rows_value as_rows efeats (λ a. refl),
          batch_of_lem of_nodes batch_size output.node msg labels e5,
          metadata_back output.metadata,
          attrs,
        )
        refl

  -- For a sample that has edge ids exactly if they are wanted, whose metadata has distinct keys, no
  -- value None and gives attributes, and whose labels and features are found, the message that the sampler packs is
  -- unpacked by the loader to the data of the sample: its nodes, edge ids, labels, features and
  -- attributes, the edges reversed, and as batch its first nodes.
  pub collate_fn-colloate_fn :
      (torch : Torch) (self : Collected Row Label)
      (output : SamplerOutput (MessageMetadata Row Label)) (of_nodes : Bool) (batch_size : ℕ)
      (labels : Option (List Label)) (nfeats efeats : Option (List Row))
      (attributes : MessageMetadata Row Label)
      → self.with_edge ≡ is_there output.edge_ids
      → Apart [] (metadata_of output.metadata)
      → AllTensors (metadata_of output.metadata)
      → attributes_of (metadata_of output.metadata) ≡ some attributes
      → Looked (λ node_labels. torch.index node_labels output.node) self.node_labels labels
      → Looked (λ async_get. async_get output.node) self.dist_node_feature nfeats
      → Looked (λ async_get. output.edge_ids >>= async_get) self.dist_edge_feature efeats
      → (colloate_fn torch self output >>= collate_fn of_nodes batch_size)
        ≡ some (record {
          x = nfeats;
          edge_index = (output.col, output.row);
          edge_attr = efeats;
          y = labels_if of_nodes labels;
          edge_ids = output.edge_ids;
          node = output.node;
          batch = batch_if of_nodes batch_size output.node;
          batch_size = batch_size_of (batch_if of_nodes batch_size output.node);
          attributes = attributes;
        })
  unfolding colloate_fn
  collate_fn-colloate_fn torch self output of_nodes batch_size labels nfeats efeats attributes edges
        apart tensors attrs found_labels found_nfeats found_efeats =
      let metadata = metadata_of output.metadata in
      let start = put_sample self.with_edge output in
      let h0 = put_sample_lem self.with_edge output edges apart in
      let l : Option (Value Row Label) = in_message labels_value labels in
      let nf : Option (Value Row Label) = in_message rows_value nfeats in
      let ef : Option (Value Row Label) = in_message rows_value efeats in
      let h1 = Holds-insert_some start _ metadata "nlabels" l h0 in
      let h2 = Holds-insert_some _ _ metadata "nfeats" nf h1 in
      let h3 = Holds-insert_some _ _ metadata "efeats" ef h2 in
      let msg2 : SampleMessage Row Label =
        insert_some (insert_some start "nlabels" l) "nfeats" nf in
      rw
        (
          put_labels_lem torch self.node_labels output.node start labels found_labels,
          put_nfeats_lem self.dist_node_feature output.node (insert_some start "nlabels" l) nfeats
              found_nfeats,
          put_efeats_lem self.dist_edge_feature output.edge_ids msg2 efeats
              (h2.at "eids" ∙ or_else-none _) found_efeats,
        )
        (unpacked of_nodes batch_size (insert_some msg2 "efeats" ef) output labels nfeats efeats
          attributes (h3.at "ids") (h3.at "rows") (h3.at "cols") (h3.at "eids" ∙ or_else-none _)
          (h3.at "nlabels" ∙ or_else-none _) (h3.at "nfeats" ∙ or_else-none _)
          (h3.at "efeats" ∙ or_else-none _)
          (metadata_in-eq-at (insert_some msg2 "efeats" ef)
              (subst AllTensors (sym h3.at_metadata) tensors)
            ∙ ap some h3.at_metadata)
          attrs)
