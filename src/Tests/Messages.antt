-- ===== src/Tests/Messages.antt =====
-- A sample with labels, features and links, sent from a sampler to a loader.
use graphlearn_for_pytorch.Prelude.{ℕ, ◌*◌, ◌≡◌, refl, true, none, some, [], ◌∷◌, map, ◌>>=◌}
use graphlearn_for_pytorch.Torch.Concrete.{concrete}
use graphlearn_for_pytorch.Sampler.Base.{edge, minus_one, SamplerOutput}
use graphlearn_for_pytorch.Distributed.Message.{
  ids_value, pair_value, MessageMetadata, Collected, colloate_fn, collate_fn,
}
use graphlearn_for_pytorch.Distributed.Message.RoundTrip.{collate_fn-colloate_fn}

abbrev a_sample : SamplerOutput (MessageMetadata ℕ ℕ)
a_sample = record {
  node = 2 ∷ 0 ∷ 1 ∷ [];
  row = 0 ∷ 1 ∷ [];
  col = 1 ∷ 2 ∷ [];
  edge_ids = some (edge 5 ∷ minus_one ∷ []);
  batch = none;
  metadata = some (
      ("edge_label_index", pair_value (0 ∷ []) (1 ∷ [])) ∷ ("edge_label", ids_value (1 ∷ [])) ∷ []);
}

abbrev a_sampler : Collected ℕ ℕ
a_sampler = record {
  with_edge = true;
  node_labels = some (10 ∷ 11 ∷ 12 ∷ []);
  dist_node_feature = some (λ ids. some (map (λ i. i * 100) ids));
  dist_edge_feature = none;
}

collate_fn-colloate_fn_example :
    (colloate_fn concrete a_sampler a_sample >>= collate_fn true 1)
    ≡ some (record {
      x = some (200 ∷ 0 ∷ 100 ∷ []);
      edge_index = (1 ∷ 2 ∷ [], 0 ∷ 1 ∷ []);
      edge_attr = none;
      y = some (12 ∷ 10 ∷ 11 ∷ []);
      edge_ids = some (edge 5 ∷ minus_one ∷ []);
      node = 2 ∷ 0 ∷ 1 ∷ [];
      batch = some (2 ∷ []);
      batch_size = 1;
      attributes =
          ("edge_label_index", pair_value (1 ∷ []) (0 ∷ []))
          ∷ ("edge_label", ids_value (1 ∷ []))
          ∷ [];
    })
unfolding concrete
collate_fn-colloate_fn_example =
    collate_fn-colloate_fn concrete a_sampler a_sample true 1 (some (12 ∷ 10 ∷ 11 ∷ []))
      (some (200 ∷ 0 ∷ 100 ∷ [])) none
      (("edge_label_index", pair_value (1 ∷ []) (0 ∷ [])) ∷ ("edge_label", ids_value (1 ∷ [])) ∷ [])
      refl (refl, (refl, tt)) (λ h. cc, (λ h. cc, tt)) refl (12 ∷ 10 ∷ 11 ∷ [], refl, refl)
      (200 ∷ 0 ∷ 100 ∷ [], refl, refl) refl
