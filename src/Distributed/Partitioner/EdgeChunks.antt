-- ===== src/Distributed/Partitioner/EdgeChunks.antt =====
-- `_partition_graph` on one worker: what it sends to the others.
use graphlearn_for_pytorch.Prelude.{
  ℕ, zero, suc, ◌+◌, ◌-◌, ◌≡◌, refl, ap, ap₂, sym, ◌∙◌, inl, ◌∷◌, Option, some, List, [], arith,
  length, get_elem?, take, drop, string_keys, triple_keys, length-take, length-drop, length-map,
  some_inj,
}
use mathlib.Core.Path.{subst}
use graphlearn_for_pytorch.Torch.{
  Torch, gather, gather-in_range, gather-take, gather-drop, length-gather, AllBelow,
}
use graphlearn_for_pytorch.Typing.{NodeType, EdgeType, PartitionBook}
use graphlearn_for_pytorch.Utils.Common.{tensor_select, length-zip}
use graphlearn_for_pytorch.Partition.Base.{
  PerType, EdgeIndex, of_type, target_type, target_indices, by_src, by_dst, Strategy,
}
use graphlearn_for_pytorch.Distributed.Partitioner.{Results}
use graphlearn_for_pytorch.Distributed.Partitioner.Chunked.{
  partition_by_chunk, GivesParts, AllSplit, option_items,
}
use graphlearn_for_pytorch.Distributed.Partitioner.Covered.{partition_by_chunk_splits}
use graphlearn_for_pytorch.Distributed.Partitioner.Keeps.{partition_by_chunk-keeps}
use graphlearn_for_pytorch.Distributed.Partitioner.Exchange.{Value, edge_columns, value_select}
use graphlearn_for_pytorch.Distributed.Partitioner.Methods.{DistRandomPartitioner, edge_pfn}
use graphlearn_for_pytorch.Distributed.Partitioner.Rows.{
  value_items, edge_rows, value_select-Selects,
}
use graphlearn_for_pytorch.Distributed.Partitioner.Nodes.{IsMember}
use graphlearn_for_pytorch.Distributed.Partitioner.Aligned.{AreAligned, select-AreAligned}

-- A worker has these columns and ids of the `m` edges, and the book of the deciding nodes is `pb`.
pub record HasEdges {Row : Type 0} (columns : EdgeIndex) (ids : List ℕ) (m : ℕ) (pb : PartitionBook)
    (node_pbs : PerType NodeType PartitionBook) (etype : Option EdgeType)
    (self : DistRandomPartitioner Row) : Type 0 where
  pub has_columns : of_type self.edge_index etype ≡ some columns
  pub has_ids : of_type self.edge_ids etype ≡ some ids
  pub has_total : of_type self.num_edges etype ≡ some m
  pub has_book : of_type node_pbs (target_type self.edge_assign_strategy etype) ≡ some pb
  pub same_cols : length columns.1 ≡ length columns.0
  pub same_ids : length ids ≡ length columns.0
  pub in_book : AllBelow (length pb) (target_indices self.edge_assign_strategy columns)

-- Edges with their ids.
abbrev pub with_ids : EdgeIndex → List ℕ → List ℕ × (List ℕ × List ℕ)
with_ids columns ids = (columns.0, (columns.1, ids))

-- What a worker sends: `parts` has the part of each edge, read from the book.
pub record EdgeChunks {Row : Type 0} (n : ℕ) (pb : PartitionBook) (targets ids : List ℕ)
    (columns : List ℕ × (List ℕ × List ℕ)) (chunks : List (Results (Value Row))) : Type 0 where
  pub parts : List ℕ
  pub read : gather pb targets ≡ some parts
  pub sized : length parts ≡ length ids
  pub split :
      AllSplit value_items n ids (value_items {Row = Row} (edge_columns columns)) parts chunks
  pub aligned :
      (i p : ℕ) (res : Results (Value Row)) (val : Option (Value Row)) (is : List ℕ)
      → get_elem? chunks i ≡ some res
      → get_elem? res p ≡ some (val, is)
      → AreAligned val

module _ {A : Type 0} where
  taken :
      (n j : ℕ) (xs : List A) (x : A) → get_elem? (take n xs) j ≡ some x → get_elem? xs j ≡ some x
  taken zero j xs x e = cc
  taken (suc n) j [] x e = cc
  taken (suc n) zero (y ∷ xs) x e = e
  taken (suc n) (suc j) (y ∷ xs) x e = taken n j xs x e

  dropped :
      (s j : ℕ) (xs : List A) (x : A)
      → get_elem? (drop s xs) j ≡ some x
      → get_elem? xs (s + j) ≡ some x
  dropped zero j xs x e = let plain : 0 + j ≡ j = omega arith in ap (get_elem? xs) plain ∙ e
  dropped (suc s) j [] x e = cc
  dropped (suc s) j (y ∷ xs) x e =
      let next : suc s + j ≡ suc (s + j) = omega arith in
      ap (get_elem? (y ∷ xs)) next ∙ dropped s j xs x e

  same_lists :
      (xs ys : List A)
      → length xs ≡ length ys
      → ((k : ℕ) (x : A) → get_elem? xs k ≡ some x → get_elem? ys k ≡ some x)
      → xs ≡ ys
  same_lists [] [] len h = refl
  same_lists [] (y ∷ ys) len h = absurd (omega arith)
  same_lists (x ∷ xs) [] len h = absurd (omega arith)
  same_lists (x ∷ xs) (y ∷ ys) len h =
      ap₂ (λ a l. a ∷ l) (sym (some_inj (h 0 x refl)))
        (same_lists xs ys (omega arith) (λ k. h (suc k)))

target_length :
    (strategy : Strategy) (columns : EdgeIndex)
    → length columns.1 ≡ length columns.0
    → length (target_indices strategy columns) ≡ length columns.0
target_length by_src columns h = refl
target_length by_dst columns h = h

module _ (torch : Torch) {Row : Type 0} (n w m : ℕ) (pb : PartitionBook)
    (node_pbs : PerType NodeType PartitionBook) (etype : Option EdgeType)
    (self : DistRandomPartitioner Row) (member : IsMember n w self) (columns : EdgeIndex)
    (ids : List ℕ) (edges : HasEdges columns ids m pb node_pbs etype self) where
  abbrev pub targets_of : List ℕ
  targets_of = target_indices self.edge_assign_strategy columns

  edge_pfn-GivesParts :
      (all : List ℕ)
      → gather pb targets_of ≡ some all
      → GivesParts (edge_pfn torch self pb targets_of) ids (λ k p. get_elem? all k ≡ some p)
  unfolding edge_pfn tensor_select
  edge_pfn-GivesParts all read = λ s e le le'.
      let got =
        gather-take (e - s) pb (drop s targets_of) (drop s all)
          (gather-drop s pb targets_of all read) in
      (
        take (e - s) (drop s all),
        rw (torch.slice_law targets_of s e)
            (torch.index_law pb (take (e - s) (drop s targets_of)) ∙ got),
        omega (
          arith,
          length-take (e - s) (drop s all),
          length-drop s all,
          length-gather pb targets_of all read,
          target_length self.edge_assign_strategy columns edges.same_cols,
          edges.same_ids,
        ),
        λ j p at. dropped s j all p (taken (e - s) j (drop s all) p at),
      )

  row_count : length (value_items {Row = Row} (edge_columns (with_ids columns ids))) ≡ length ids
  row_count =
      let inner = length-zip columns.1 ids (edges.same_cols ∙ sym edges.same_ids) in
      length-map (edge_rows (with_ids columns ids)) inl
      ∙ length-zip columns.0 _ (sym edges.same_cols ∙ sym inner)
      ∙ sym edges.same_ids

  pub edge_chunks :
      (chunks : List (Results (Value Row))) × (partition_by_chunk torch
          (value_select torch)
          self.num_parts
          self.chunk_size
          (some (edge_columns (with_ids columns ids)))
          ids
          (edge_pfn torch self pb targets_of)
        ≡ some chunks)
      × EdgeChunks n pb targets_of ids (with_ids columns ids) chunks
  edge_chunks =
      let (all, read) = gather-in_range pb targets_of edges.in_book in
      let val : Option (Value Row) = some (edge_columns (with_ids columns ids)) in
      let (parts, chunks, run, len, split, same) =
        partition_by_chunk_splits value_items (value_select-Selects torch) torch self.num_parts
          self.chunk_size val ids (edge_pfn torch self pb targets_of)
          (λ k p. get_elem? all k ≡ some p) (edge_pfn-GivesParts all read)
          (λ d e. ap (λ v. length (value_items v)) (sym (some_inj e)) ∙ row_count) member.chunked in
      let all_len : length all ≡ length ids = omega (
        arith,
        length-gather pb targets_of all read,
        target_length self.edge_assign_strategy columns edges.same_cols,
        edges.same_ids,
      ) in
      (
        chunks,
        run,
        record {
          parts = parts;
          read = read ∙ ap some (sym (same_lists parts all (len ∙ sym all_len) same));
          sized = len;
          split =
              subst (λ k. AllSplit value_items k ids (option_items value_items val) parts chunks)
                member.parts split;
          aligned = λ i p res val' is at at'.
              partition_by_chunk-keeps torch (value_select torch) self.num_parts AreAligned
                (select-AreAligned torch) self.chunk_size val ids
                (edge_pfn torch self pb targets_of) (edges.same_cols, edges.same_ids) chunks i p res
                val' is member.chunked run at at';
        },
      )
