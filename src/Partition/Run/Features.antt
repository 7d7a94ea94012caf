-- ===== src/Partition/Run/Features.antt =====
-- `_partition_node_feat` and `_partition_edge_feat`: one result for each part, with ids for every
-- cache.
use graphlearn_for_pytorch.Prelude.{
  ℕ, zero, suc, ◌≡◌, refl, ap, sym, ◌∙◌, Option, none, some, List, [], ◌∷◌, map, ◌>>=◌, >>=-eq-some,
  some_inj, traverse, get_elem?, length, length-map, length-range_from, range,
}
use graphlearn_for_pytorch.Torch.{Torch}
use graphlearn_for_pytorch.Typing.{GraphPartitionData, FeaturePartitionData}
use graphlearn_for_pytorch.Partition.Base.{PartitionerBase, get_node_feat, get_edge_feat}
use graphlearn_for_pytorch.Partition.Files.Loaded.{HasIds}
use graphlearn_for_pytorch.Partition.Run.{
  NodePartitioner, cached_rows, node_feat_part, edge_feat_part, partition_node_feat,
  partition_edge_feat,
}

abbrev pub at_part : {A : Type 0} → List (Option A) → ℕ → Option A
at_part xs i = elim (get_elem? xs i) [ none ↦ none | some x ↦ x ]

module _ {A B : Type 0} (f : A → Option (Option B)) (P : B → Type 0)
    (ok : (a : A) (b : B) → f a ≡ some (some b) → P b) where
  traverse_complete :
      (xs : List A) (ys : List (Option B))
      → traverse f xs ≡ some ys
      → (length ys ≡ length xs) × ((i : ℕ) (b : B) → at_part ys i ≡ some b → P b)
  traverse_complete [] [] e = (refl, λ i b h. cc)
  traverse_complete [] (y ∷ ys) e = cc
  traverse_complete (x ∷ xs) ys e =
      let (y, fx, e1) = >>=-eq-some (f x) _ e in
      let (zs, rest, e2) = >>=-eq-some (traverse f xs) _ e1 in
      let (len, all) = traverse_complete xs zs rest in
      rw (← some_inj e2) (ap suc len, at_head y zs fx all)
    where
      at_head :
          (y : Option B) (zs : List (Option B))
          → f x ≡ some y
          → ((i : ℕ) (b : B) → at_part zs i ≡ some b → P b)
          → (i : ℕ) (b : B) → at_part (y ∷ zs) i ≡ some b
          → P b
      at_head y zs fx all zero b h = ok x b (fx ∙ ap some h)
      at_head y zs fx all (suc i) b h = all i b h

nothing_at :
    {A B : Type 0} (xs : List A) (i : ℕ) (b : B) → at_part (map (λ x. none) xs) i ≡ some b → ⊥
nothing_at [] i b h = cc
nothing_at (x ∷ xs) zero b h = cc
nothing_at (x ∷ xs) (suc i) b h = nothing_at xs i b h

module _ (torch : Torch) {Row : Type 0} (self : PartitionerBase Row) where
  cached_ids :
      (rows : List Row) (c : Option (List ℕ)) (cf : Option (List Row))
      → cached_rows torch rows c ≡ some cf
      → cf ≡ none
      → c ≡ none
  cached_ids rows none cf e h = refl
  cached_ids rows (some ids) cf e h =
      let (found, e1, f1) = >>=-eq-some (torch.index rows ids) _ e in cc

  node_part-HasIds :
      (rows : List Row) (ids : List (List ℕ)) (cached : List (Option (List ℕ))) (pidx : ℕ)
      (f : FeaturePartitionData Row)
      → node_feat_part torch rows ids cached pidx ≡ some (some f)
      → HasIds f
  unfolding node_feat_part
  node_part-HasIds rows ids cached pidx f e =
      let (n_ids, e1, f1) = >>=-eq-some (get_elem? ids pidx) _ e in
      let (c, e2, f2) = >>=-eq-some (get_elem? cached pidx) _ f1 in
      let (feats, e3, f3) = >>=-eq-some (torch.index rows n_ids) _ f2 in
      let (cf, e4, f4) = >>=-eq-some (cached_rows torch rows c) _ f3 in
      λ h.
        sym (ap (λ g. g.cache_ids) (some_inj (some_inj f4)))
        ∙ cached_ids rows c cf e4 (ap (λ g. g.cache_feats) (some_inj (some_inj f4)) ∙ h)

  edge_part-HasIds :
      (rows : List Row) (graphs : List GraphPartitionData) (pidx : ℕ) (f : FeaturePartitionData Row)
      → edge_feat_part torch rows graphs pidx ≡ some (some f)
      → HasIds f
  unfolding edge_feat_part
  edge_part-HasIds rows graphs pidx f e =
      let (graph, e1, f1) = >>=-eq-some (get_elem? graphs pidx) _ e in
      let (feats, e2, f2) = >>=-eq-some (torch.index rows graph.eids) _ f1 in
      λ h. sym (ap (λ g. g.cache_ids) (some_inj (some_inj f2)))

  nothing_there :
      (nf : List (Option (FeaturePartitionData Row)))
      → map (λ pidx. none) (range self.num_parts) ≡ nf
      → (length nf ≡ self.num_parts)
        × ((i : ℕ) (f : FeaturePartitionData Row) → at_part nf i ≡ some f → HasIds f)
  nothing_there nf e = rw (← e) (
    length-map (range self.num_parts) (λ pidx. none) ∙ length-range_from 0 self.num_parts,
    λ i f h. absurd (nothing_at (range self.num_parts) i f h),
  )

  of_node_feat :
      (node : NodePartitioner) (ids : List (List ℕ)) (o : Option (List Row))
      (nf : List (Option (FeaturePartitionData Row)))
      → (elim o [
        | none ↦ some (map (λ pidx. none) (range self.num_parts))
        | some rows ↦ node.cache_node none >>= λ cached.
            traverse (node_feat_part torch rows ids cached) (range self.num_parts)
      ])
        ≡ some nf
      → (length nf ≡ self.num_parts)
        × ((i : ℕ) (f : FeaturePartitionData Row) → at_part nf i ≡ some f → HasIds f)
  of_node_feat node ids none nf e = nothing_there nf (some_inj e)
  of_node_feat node ids (some rows) nf e =
      let (cached, e1, f1) = >>=-eq-some (node.cache_node none) _ e in
      let (len, all) =
        traverse_complete (node_feat_part torch rows ids cached) HasIds
          (node_part-HasIds rows ids cached) (range self.num_parts) nf f1 in
      (len ∙ length-range_from 0 self.num_parts, all)

  pub partition_node_feat_complete :
      (node : NodePartitioner) (ids : List (List ℕ)) (nf : List (Option (FeaturePartitionData Row)))
      → partition_node_feat torch self node ids none ≡ some nf
      → (length nf ≡ self.num_parts)
        × ((i : ℕ) (f : FeaturePartitionData Row) → at_part nf i ≡ some f → HasIds f)
  unfolding partition_node_feat
  partition_node_feat_complete node ids nf e =
      let (o, e1, f1) = >>=-eq-some (get_node_feat self none) _ e in of_node_feat node ids o nf f1

  of_edge_feat :
      (graphs : List GraphPartitionData) (o : Option (List Row))
      (ef : List (Option (FeaturePartitionData Row)))
      → (elim o [
        | none ↦ some (map (λ pidx. none) (range self.num_parts))
        | some rows ↦ traverse (edge_feat_part torch rows graphs) (range self.num_parts)
      ])
        ≡ some ef
      → (length ef ≡ self.num_parts)
        × ((i : ℕ) (f : FeaturePartitionData Row) → at_part ef i ≡ some f → HasIds f)
  of_edge_feat graphs none ef e = nothing_there ef (some_inj e)
  of_edge_feat graphs (some rows) ef e =
      let (len, all) =
        traverse_complete (edge_feat_part torch rows graphs) HasIds (edge_part-HasIds rows graphs)
          (range self.num_parts) ef e in
      (len ∙ length-range_from 0 self.num_parts, all)

  pub partition_edge_feat_complete :
      (graphs : List GraphPartitionData) (ef : List (Option (FeaturePartitionData Row)))
      → partition_edge_feat torch self graphs none ≡ some ef
      → (length ef ≡ self.num_parts)
        × ((i : ℕ) (f : FeaturePartitionData Row) → at_part ef i ≡ some f → HasIds f)
  unfolding partition_edge_feat
  partition_edge_feat_complete graphs ef e =
      let (o, e1, f1) = >>=-eq-some (get_edge_feat self none) _ e in of_edge_feat graphs o ef f1
