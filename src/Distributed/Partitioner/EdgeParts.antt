-- ===== src/Distributed/Partitioner/EdgeParts.antt =====
-- `_partition_graph` on the workers of a group, and what each of them returns.
use graphlearn_for_pytorch.Prelude.{
  ℕ, ◌<◌, ◌≡◌, refl, ap, sym, ◌∙◌, true, Option, none, some, List, [], length, get_elem?, some_inj,
}
use graphlearn_for_pytorch.Torch.{Torch, gather, select}
use graphlearn_for_pytorch.Typing.{NodeType, EdgeType, PartitionBook, GraphPartitionData}
use graphlearn_for_pytorch.Partition.Base.{PerType, EdgeIndex, target_indices}
use graphlearn_for_pytorch.Partition.Chunks.{in_part}
use graphlearn_for_pytorch.Distributed.Partitioner.{Manager, Results}
use graphlearn_for_pytorch.Distributed.Partitioner.Sums.{weigh, total}
use graphlearn_for_pytorch.Distributed.Partitioner.Exchange.{
  Value, edge_columns, Exchange, returns, collective, and_then, or_raise, Runs,
}
use graphlearn_for_pytorch.Distributed.Partitioner.Methods.{
  DistRandomPartitioner, partition_graph, cat_graph,
}
use graphlearn_for_pytorch.Distributed.Partitioner.Rounds.{
  AreRanked, Round, Runs-Round, Runs-result,
}
use graphlearn_for_pytorch.Distributed.Partitioner.Rows.{edge_rows, value_items}
use graphlearn_for_pytorch.Distributed.Partitioner.Sent.{AllSplit-IsSent, AllSplit-part}
use graphlearn_for_pytorch.Distributed.Partitioner.Nodes.{IsMember}
use graphlearn_for_pytorch.Distributed.Partitioner.EdgeChunks.{
  HasEdges, EdgeChunks, with_ids, edge_chunks,
}
use graphlearn_for_pytorch.Distributed.Partitioner.Joined.{cat_graph-rows}
use graphlearn_for_pytorch.Distributed.Partitioner.EdgeRound.{
  AreUnique, edge_entry, edge_book, edge_values, edge_values_aligned, some_value,
}
use graphlearn_for_pytorch.Distributed.Partitioner.Completes.{Round-Runs}

module _ (torch : Torch) {Row : Type 0} where
  -- What a worker does with the values of its part and the book.
  abbrev pub part_made :
      DistRandomPartitioner Row
      → List (Value Row)
      → Option PartitionBook
      → Exchange Row (GraphPartitionData × Option PartitionBook)
  part_made self values book =
      and_then (or_raise (cat_graph torch self values)) λ part. returns (part, book)

  partition_graph-calls :
      (n w m : ℕ) (pb : PartitionBook) (node_pbs : PerType NodeType PartitionBook)
      (etype : Option EdgeType) (self : DistRandomPartitioner Row) (columns : EdgeIndex)
      (ids : List ℕ)
      → IsMember n w self
      → HasEdges columns ids m pb node_pbs etype self
      → (chunks : List (Results (Value Row))) × (partition_graph torch self node_pbs etype
          ≡ collective chunks m true (part_made self))
        × EdgeChunks n pb
            (target_indices self.edge_assign_strategy columns)
            ids
            (with_ids columns ids)
            chunks
  unfolding partition_graph
  partition_graph-calls n w m pb node_pbs etype self columns ids member edges =
      let (chunks, run, sends) =
        edge_chunks torch n w m pb node_pbs etype self member columns ids edges in
      (
        chunks,
        rw (edges.has_columns, edges.has_ids, edges.has_total, edges.has_book, run) refl,
        sends,
      )

-- What the worker `r` gets, when the workers have these columns and ids, and `all` has the part of each
-- edge: a book with the part of each edge, and a graph with the edges of its part.
pub record IsShare (n m : ℕ) (columns : ℕ → EdgeIndex) (ids all : ℕ → List ℕ) (r : ℕ)
    (part : GraphPartitionData) (book : PartitionBook) : Type 0 where
  pub size : length book ≡ m
  pub entries :
      (w j i p : ℕ)
      → w < n
      → get_elem? (ids w) j ≡ some i
      → get_elem? (all w) j ≡ some p
      → get_elem? book i ≡ some p
  -- The edges weigh as much as those of the part on all workers, under every weight of edges.
  pub own_edges :
      (f : ℕ × (ℕ × ℕ) → ℕ)
      → weigh f (edge_rows (part.edge_index.0, (part.edge_index.1, part.eids)))
        ≡ total n
            (λ w. weigh f (select (edge_rows (with_ids (columns w) (ids w))) (in_part r (all w))))

module _ (torch : Torch) {Row : Type 0} (n m : ℕ) (pb : PartitionBook)
    (node_pbs : PerType NodeType PartitionBook) (etype : Option EdgeType)
    (selves : ℕ → DistRandomPartitioner Row) (columns : ℕ → EdgeIndex) (ids all : ℕ → List ℕ)
    (managers : ℕ → Manager (Value Row)) (pos : 0 < n)
    (members : (w : ℕ) → w < n → IsMember n w (selves w))
    (edges : (w : ℕ) → w < n → HasEdges (columns w) (ids w) m pb node_pbs etype (selves w))
    (read : (w : ℕ)
      → w < n
      → gather pb (target_indices (selves w).edge_assign_strategy (columns w)) ≡ some (all w))
    (parts_below : (w j p : ℕ) → w < n → get_elem? (all w) j ≡ some p → p < n)
    (ids_below : (w j i : ℕ) → w < n → get_elem? (ids w) j ≡ some i → i < m)
    (unique : AreUnique n ids) (some_edge : (w : ℕ) × (w < n) × (0 < length (ids w)))
    (ranked : AreRanked n managers) where
  abbrev SendsEdges : ℕ → List (Results (Value Row)) → Type 0
  SendsEdges w =
      EdgeChunks n pb (target_indices (selves w).edge_assign_strategy (columns w)) (ids w)
        (with_ids (columns w) (ids w))

  shares :
      (round : Round torch n managers SendsEdges m true) (r : ℕ)
      → r < n
      → (part : GraphPartitionData) × (book : PartitionBook) × (part_made torch
            (selves r)
            (round.group.managers r).cur_part_val_list
            (round.group.managers r).partition_book
          ≡ returns (part, some book))
        × IsShare n m columns ids all r part book
  shares round r lt =
      let values = (round.group.managers r).cur_part_val_list in
      let targets = λ (w : ℕ). target_indices (selves w).edge_assign_strategy (columns w) in
      let (book, there, len) =
        edge_book torch n m pb managers columns ids targets all pos ranked read ids_below unique
          round r lt in
      let (w, lt_w, edge) = some_edge in
      let (part, made, rows) =
        cat_graph-rows torch (selves r) values
          (edge_values_aligned torch n m pb managers columns ids targets all pos ranked read
            ids_below unique round r lt)
          (some_value torch n m pb managers columns ids targets all pos ranked read ids_below unique
            round r w lt lt_w edge (λ j p. parts_below w j p lt_w)) in
      (
        part,
        book,
        rw (made, there) refl,
        record {
          size = len;
          entries = λ v j i p lt_v at at'.
              let (book', there', _, entry) =
                edge_entry torch n m pb managers columns ids targets all pos ranked read ids_below
                  unique round r v j i p lt lt_v (parts_below v j p lt_v at') at at' in
              ap (λ b. get_elem? b i) (some_inj (sym there ∙ there')) ∙ entry;
          own_edges = λ f.
              rows f
              ∙ edge_values torch n m pb managers columns ids targets all pos ranked read ids_below
                  unique round f r lt;
        },
      )

  calls :
      (w : ℕ)
      → w < n
      → (chunks : List (Results (Value Row))) × (partition_graph torch (selves w) node_pbs etype
          ≡ collective chunks m true (part_made torch (selves w)))
        × SendsEdges w chunks
  calls w lt =
      partition_graph-calls torch n w m pb node_pbs etype (selves w) (columns w) (ids w)
        (members w lt) (edges w lt)

  -- On `n` workers, each in its place, with chunk sizes that are not zero, as many columns and ids as
  -- rows, the same number `m` of all edges and the same book of the nodes: if the ids are below
  -- `m`, none twice, the deciding ends are within the book and find a part below `n` there, and some
  -- worker has an edge, then in every run every worker gets the part that is its own, with exactly
  -- the edges of all workers whose part it is, and a book of the `m` edges with the part of each.
  pub partition_graph_shares :
      (results : ℕ → GraphPartitionData × Option PartitionBook)
      → Runs torch n results managers (λ w. partition_graph torch (selves w) node_pbs etype)
      → (r : ℕ) → r < n
      → (part : GraphPartitionData) × (book : PartitionBook) × (results r ≡ (part, some book))
        × IsShare n m columns ids all r part book
  partition_graph_shares results runs r lt =
      let (round, programs, goes_on, rest) =
        Runs-Round torch n results managers (λ w. partition_graph torch (selves w) node_pbs etype)
          SendsEdges m true (λ w. part_made torch (selves w)) pos ranked calls runs in
      let (part, book, made, share) = shares round r lt in
      (
        part,
        book,
        Runs-result torch n results round.group.managers programs r (part, some book) lt
            (goes_on r lt ∙ made) rest,
        share,
      )

  -- Under the same conditions there is a run in which all workers return.
  pub partition_graph-Runs :
      (results : ℕ → GraphPartitionData × Option PartitionBook) × Runs torch n results managers
        (λ w. partition_graph torch (selves w) node_pbs etype)
  partition_graph-Runs =
      Round-Runs torch n m managers (λ w. partition_graph torch (selves w) node_pbs etype)
        SendsEdges (λ w. part_made torch (selves w))
        (record { edge_index = ([], []); eids = [] }, none) ranked calls
        (λ w c chunks res lt sent at. sent.split.chunk_sizes c res at)
        (λ w p i chunks lt sent s.
          let rows = value_items (edge_columns (with_ids (columns w) (ids w))) in
          let in_parts =
            AllSplit-part value_items n (ids w) rows sent.parts chunks p i sent.split s in
          let (j, at, _) =
            (AllSplit-IsSent value_items n (ids w) rows sent.parts chunks p i sent.split in_parts).0
              s in
          ids_below w j i lt at)
        (λ round w lt. let (part, book, made, _) = shares round w lt in ((part, some book), made))
