-- ===== src/Partition/Topology.antt =====
-- What `_partition_graph` promises to its callers.
use graphlearn_for_pytorch.Prelude.{
  ℕ, zero, suc, ◌+◌, ◌-◌, ◌/◌, ◌<◌, ◌≡◌, ◌↔◌, refl, ap, sym, ◌∙◌, true, Option, none, some, List,
  [], map, arith, ◌==◌, ==_iff, length, get_elem?, range, range_from, length-range_from,
  Option-cases, some_pair, some_inj, get_elem?-lt, length-map, inl, inr, string_keys, triple_keys,
}
use native.Mathlib.Nat.{zero-add, div-eq_of_lt}
use graphlearn_for_pytorch.Torch.{
  Torch, gather, length-gather, select, select-aligned, AllBelow, contains, get_elem?-gather,
}
use graphlearn_for_pytorch.Typing.{NodeType, EdgeType, GraphPartitionData, PartitionBook}
use graphlearn_for_pytorch.Partition.Base.{
  PartitionerBase, PerType, of_type, target_type, target_indices, by_src, by_dst, Strategy,
  get_edge_index, partition_graph, partition_edges, collect_parts, chunk_loop, cat_part,
}
use graphlearn_for_pytorch.Partition.Chunks.{in_part, part_of}
use graphlearn_for_pytorch.Partition.Edges.{partition_edges_lem, contains-ids}

length-targets :
    (strategy : Strategy) (rows cols : List ℕ)
    → length cols ≡ length rows
    → length (target_indices strategy (rows, cols)) ≡ length rows
length-targets by_src rows cols h = refl
length-targets by_dst rows cols h = h

get_elem?-map_range :
    {A : Type 0} (f : ℕ → A) (s n i : ℕ) (x : A)
    → get_elem? (map f (range_from s n)) i ≡ some x
    → (x ≡ f (s + i)) × (i < n)
get_elem?-map_range f s zero i x h = cc
get_elem?-map_range f s (suc n) zero x h =
    let e : s + 0 ≡ s = omega arith in (rw e (cc), omega arith)
get_elem?-map_range f s (suc n) (suc i) x h =
    let (eq, lt) = get_elem?-map_range f (suc s) n i x h in
    let e : s + suc i ≡ suc s + i = omega arith in (rw e eq, omega arith)

module _ (torch : Torch) {Row : Type 0} (p : PartitionerBase Row)
    (node_pb : PerType NodeType PartitionBook) (etype : Option EdgeType)
    (rows cols pb parts : List ℕ) (edges : get_edge_index p etype ≡ some (rows, cols))
    (ends : of_type node_pb (target_type p.edge_assign_strategy etype) ≡ some pb)
    (some_chunk : 0 < p.chunk_size) (some_edge : 0 < length rows)
    (same_cols : length cols ≡ length rows)
    (read : gather pb (target_indices p.edge_assign_strategy (rows, cols)) ≡ some parts)
    (valid : AllBelow p.num_parts parts) where
  -- However the edges are cut into chunks, `_partition_graph` returns for each part the edges whose
  -- deciding end lies in that part by the node book, in their order, and as edge book the part of
  -- each edge.
  pub partition_graph-eq-select :
      partition_graph torch p node_pb etype
      ≡ some (map (part_of rows cols (range (length rows)) parts) (range p.num_parts), parts)
  unfolding partition_graph
  partition_graph-eq-select =
      let positive : p.chunk_size ≡ suc (p.chunk_size - 1) = omega arith in
      let lem =
        partition_edges_lem torch p.num_parts (p.chunk_size - 1) rows cols pb _ parts some_edge
          same_cols (length-targets p.edge_assign_strategy rows cols same_cols) read valid in
      simp (edges, ends) (rw positive lem)

  module _ (edge_pb : PartitionBook) (books : edge_pb ≡ parts) (sized : length parts ≡ length rows)
      (pidx : ℕ) (part : GraphPartitionData)
      (at : get_elem? (map (part_of rows cols (range (length rows)) parts) (range p.num_parts)) pidx
        ≡ some part) where
    abbrev the_part : part ≡ part_of rows cols (range (length rows)) parts pidx
    the_part =
        rw zero-add at
          (get_elem?-map_range (part_of rows cols (range (length rows)) parts) 0 p.num_parts pidx
            part at).0

    split_exact :
        (e : ℕ)
        → e < length rows
        → (contains part.eids e ≡ true) ↔ (get_elem? edge_pb e ≡ some pidx)
    split_exact e lt =
        let (t, et) = get_elem?-lt parts e (omega arith) in
        let test : contains (select (range (length rows)) (in_part pidx parts)) e ≡ (t == pidx) =
          rw (← sized) (contains-ids parts pidx e t et) in
        rw (the_part, books)
          (
            (λ inside. rw et (ap some ((==_iff t pidx).0 (sym test ∙ inside)))),
            λ entry. test ∙ (==_iff t pidx).1 (some_inj (sym et ∙ entry)),
          )

    split_aligned :
        (k e : ℕ)
        → get_elem? part.eids k ≡ some e
        → (get_elem? part.edge_index.0 k ≡ get_elem? rows e)
          × (get_elem? part.edge_index.1 k ≡ get_elem? cols e)
    split_aligned k e id =
        let id' = rw (the_part, ← sized) at id in
        rw the_part (
          select-aligned rows (in_part pidx parts) k e (rw the_part at id),
          select-aligned cols (in_part pidx parts) k e (rw (the_part, ← same_cols) at id),
        )

  -- Under the same conditions: an edge is in a returned part exactly when the returned edge book
  -- sends it there, each edge of a part keeps its own row and column, and the book has for every
  -- edge the entry of its deciding end in the node book.
  pub partition_graph_complete :
      (graph_list : List GraphPartitionData) (edge_pb : PartitionBook)
      → partition_graph torch p node_pb etype ≡ some (graph_list, edge_pb)
      → (length graph_list ≡ p.num_parts)
        × ((pidx e : ℕ) (part : GraphPartitionData)
            → get_elem? graph_list pidx ≡ some part
            → e < length rows
            → (contains part.eids e ≡ true) ↔ (get_elem? edge_pb e ≡ some pidx))
        × ((pidx k e : ℕ) (part : GraphPartitionData)
            → get_elem? graph_list pidx ≡ some part
            → get_elem? part.eids k ≡ some e
            → (get_elem? part.edge_index.0 k ≡ get_elem? rows e)
              × (get_elem? part.edge_index.1 k ≡ get_elem? cols e))
        × ((e v : ℕ)
            → get_elem? (target_indices p.edge_assign_strategy (rows, cols)) e ≡ some v
            → get_elem? edge_pb e ≡ get_elem? pb v)
  partition_graph_complete graph_list edge_pb h =
      let (lists, books) = some_pair (sym h ∙ partition_graph-eq-select) in
      let sized : length parts ≡ length rows = omega (
        arith,
        length-gather pb _ parts read,
        length-targets p.edge_assign_strategy rows cols same_cols,
      ) in
      (
        ap length lists ∙ length-map (range p.num_parts) _ ∙ length-range_from 0 p.num_parts,
        λ pidx e part at lt. split_exact edge_pb books sized pidx part (rw lists at at) e lt,
        λ pidx k e part at id. split_aligned edge_pb books sized pidx part (rw lists at at) k e id,
        λ e v at. rw books (get_elem?-gather pb _ parts e v read at),
      )

partition_edges-no_edges :
    (torch : Torch) (n c : ℕ) (cols pb targets : List ℕ)
    → 0 < n
    → partition_edges torch n c ([], cols) pb targets ≡ none
unfolding partition_edges
partition_edges-no_edges torch zero c cols pb targets h = elim h [ ]
partition_edges-no_edges torch (suc n) zero cols pb targets h = refl
partition_edges-no_edges torch (suc n) (suc c) cols pb targets h =
    let none_left : (0 + suc c - 1) / suc c ≡ 0 = div-eq_of_lt (omega arith) in
    rw none_left (unfold chunk_loop collect_parts cat_part in simp torch.cat_law)

-- With no edge there is no chunk, and `torch.cat` of no tensors raises.
pub partition_graph-no_edges :
    (torch : Torch) {Row : Type 0} (p : PartitionerBase Row)
    (node_pb : PerType NodeType PartitionBook) (etype : Option EdgeType) (cols : List ℕ)
    → get_edge_index p etype ≡ some ([], cols)
    → 0 < p.num_parts
    → partition_graph torch p node_pb etype ≡ none
unfolding partition_graph
partition_graph-no_edges torch p node_pb etype cols edges parts =
    let k : p.num_parts ≡ suc (p.num_parts - 1) = omega arith in
    elim (Option-cases (of_type node_pb (target_type p.edge_assign_strategy etype))) [
      | inl missing ↦ simp (edges, missing)
      | inr (pb, ends) ↦
          simp (edges, ends)
            (partition_edges-no_edges torch p.num_parts p.chunk_size cols pb _ parts)
    ]
