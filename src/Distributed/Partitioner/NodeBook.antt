-- ===== src/Distributed/Partitioner/NodeBook.antt =====
-- The book that `_partition_node` gives on the workers of a group.
use graphlearn_for_pytorch.Prelude.{
  none, ℕ, zero, suc, ◌+◌, ◌*◌, ◌/◌, ◌%◌, ◌≤◌, ◌<◌, ◌≡◌, refl, ap, sym, ◌∙◌, ◌⊎◌, inl, inr, true,
  Option, some, List, [], get_elem?-range_from, arith, length, string_keys, get_elem?, eq_of_get,
  get_elem?-none, some_inj, get_elem?-lt,
}
use mathlib.Core.Path.{subst}
use native.Mathlib.Bridge.{le_prop}
use graphlearn_for_pytorch.Torch.{Torch}
use graphlearn_for_pytorch.Typing.{NodeType, PartitionBook}
use graphlearn_for_pytorch.Partition.Base.{of_type}
use graphlearn_for_pytorch.Distributed.Partitioner.{Manager}
use graphlearn_for_pytorch.Distributed.Partitioner.Agree.{IsSent, new_group-books_agree}
use graphlearn_for_pytorch.Distributed.Partitioner.Sent.{AllSplit-IsSent}
use graphlearn_for_pytorch.Distributed.Partitioner.Rows.{value_items}
use graphlearn_for_pytorch.Distributed.Partitioner.Ends.{new_group-has_books}
use graphlearn_for_pytorch.Distributed.Partitioner.Exchange.{Value, returns, Runs}
use graphlearn_for_pytorch.Distributed.Partitioner.Methods.{DistRandomPartitioner, partition_node}
use graphlearn_for_pytorch.Distributed.Partitioner.Rounds.{
  AreRanked, AreRanked-ArePlaced, Round, Runs-Round, Runs-result,
}
use graphlearn_for_pytorch.Distributed.Partitioner.Nodes.{
  IsOrder, IsMember, NodeChunks, partition_node-calls, node-sent, nodes_of_worker, in_bounds,
  one_owner,
}
use graphlearn_for_pytorch.Distributed.Partitioner.Completes.{Round-Runs}

-- The book of `m` nodes on `n` workers.
pub record IsNodeBook (m n : ℕ) (book : PartitionBook) : Type 0 where
  pub size : length book ≡ m
  pub shared_out : (i : ℕ) → i < m / n * n → (p : ℕ) × (get_elem? book i ≡ some p) × (p < n)
  pub left_over : (i : ℕ) → m / n * n ≤ i → i < m → get_elem? book i ≡ some 0

not_shared : (per n v j i : ℕ) → v < n → j < per → i ≡ per * v + j → per * n ≤ i → ⊥
not_shared per n v j i lt inside e above =
    let le : per * suc v ≤ per * n = grind arith in
    let next : per * suc v ≡ per * v + per = grind arith in
    omega (arith, le, next, inside, e, above)

owner_of : (per n i : ℕ) → i < per * n → (w : ℕ) × (j : ℕ) × (w < n) × (j < per) × (i ≡ per * w + j)
owner_of zero n i lt = absurd (grind arith)
owner_of (suc d) n i lt = (i / suc d, i % suc d, grind arith, omega arith, omega arith)

split_three : (i a b : ℕ) → (i < a) ⊎ (((a ≤ i) × (i < b)) ⊎ (b ≤ i))
split_three i a b = omega arith

module _ (torch : Torch) {Row : Type 0} (n m : ℕ) (managers : ℕ → Manager (Value Row)) (pos : 0 < n)
    (ranked : AreRanked n managers) (round : Round torch n managers (NodeChunks m n) m true) where
  sent_at :
      (w p i : ℕ) (lt : w < n)
      → IsSent (round.sent_chunks w) p i
      → (j : ℕ) × (j < m / n)
        × (i ≡ m / n * w + j)
        × (get_elem? (round.sends w lt).parts j ≡ some p)
  sent_at w p i lt sent = node-sent torch n w m (round.sent_chunks w) (round.sends w lt) p i sent

  has_book :
      (r : ℕ)
      → r < n
      → (book : PartitionBook) × ((round.group.managers r).partition_book ≡ some book)
        × (length book ≡ m)
  has_book r lt =
      new_group-has_books n true torch m managers round.sent_chunks round.steps round.group
        (AreRanked-ArePlaced torch n m true managers round.sent_chunks ranked)
        (λ w c res lt' at. (round.sends w lt').split.chunk_sizes c res at)
        (λ w p i lt' sent.
          let (j, inside, e, _) = sent_at w p i lt' sent in
          omega (arith, e, inside, in_bounds m n w pos lt'))
        round.reached refl r lt

  same_part :
      (v w : ℕ) (lt : v < n) (lt' : w < n) (j q : ℕ)
      → v ≡ w
      → get_elem? (round.sends v lt).parts j ≡ some q
      → get_elem? (round.sends w lt').parts j ≡ some q
  same_part v w lt lt' j q e at =
      subst (λ x. (lt_x : x < n) → get_elem? (round.sends x lt_x).parts j ≡ some q) e
        (λ lt_v. ap (λ h. get_elem? (round.sends v h).parts j) (le_prop lt_v lt) ∙ at) lt'

  is_sent :
      (w j p : ℕ) (lt : w < n)
      → get_elem? (round.sends w lt).parts j ≡ some p
      → j < m / n
      → IsSent (round.sent_chunks w) p (m / n * w + j)
  is_sent w j p lt at inside =
      (AllSplit-IsSent value_items n (nodes_of_worker m n w) [] (round.sends w lt).parts
          (round.sent_chunks w) p (m / n * w + j) (round.sends w lt).split
          ((round.sends w lt).below j p at)).1
        (j, get_elem?-range_from (m / n * w) (m / n) j inside, at)

  in_book :
      (r : ℕ) (lt : r < n) (i q : ℕ) (book : PartitionBook)
      → (round.group.managers r).partition_book ≡ some book
      → get_elem? book i ≡ some q
      → get_elem? (has_book r lt).0 i ≡ some q
  in_book r lt i q book there at =
      ap (λ b. get_elem? b i) (some_inj (sym (has_book r lt).1 ∙ there)) ∙ at

  -- The entry of a node that is shared out is the part that its worker chose, on every worker.
  entry_shared :
      (r w j p : ℕ) (lt : r < n) (lt' : w < n)
      → get_elem? (round.sends w lt').parts j ≡ some p
      → j < m / n
      → get_elem? (has_book r lt).0 (m / n * w + j) ≡ some p
  entry_shared r w j p lt lt' at inside =
      let i = m / n * w + j in
      let only = λ (v q : ℕ) (lt_v : v < n) (sent : IsSent (round.sent_chunks v) q i).
        let (j', inside', e, at') = sent_at v q i lt_v sent in
        let (same, same') = one_owner (m / n) v w j' j inside' inside (sym e) in
        some_inj (
          sym (same_part v w lt_v lt' j' q same at')
          ∙ ap (get_elem? (round.sends w lt').parts) same'
          ∙ at) in
      let agreed =
        new_group-books_agree torch n m managers round.sent_chunks round.steps round.group r i p
          (AreRanked-ArePlaced torch n m true managers round.sent_chunks ranked) round.reached
          round.finished lt (omega (arith, in_bounds m n w pos lt', inside)) only in
      in_book r lt i p agreed.0 agreed.1 (agreed.3 w p lt' (is_sent w j p lt' at inside))

  entry_left :
      (r i : ℕ) (lt : r < n) → m / n * n ≤ i → i < m → get_elem? (has_book r lt).0 i ≡ some 0
  entry_left r i lt above below =
      let never = λ (v q : ℕ) (lt_v : v < n) (sent : IsSent (round.sent_chunks v) q i).
        let (j, inside, e, _) = sent_at v q i lt_v sent in
        not_shared (m / n) n v j i lt_v inside e above in
      let agreed =
        new_group-books_agree torch n m managers round.sent_chunks round.steps round.group r i 0
          (AreRanked-ArePlaced torch n m true managers round.sent_chunks ranked) round.reached
          round.finished lt below (λ v q lt_v sent. absurd (never v q lt_v sent)) in
      in_book r lt i 0 agreed.0 agreed.1 (agreed.4 never)

  shared_entry :
      (i : ℕ)
      → i < m / n * n
      → (p : ℕ) × (p < n) × ((r : ℕ) (lt : r < n) → get_elem? (has_book r lt).0 i ≡ some p)
  shared_entry i lt =
      let (w, j, lt_w, inside, e) = owner_of (m / n) n i lt in
      let (p, at) =
        get_elem?-lt (round.sends w lt_w).parts j
          (omega (arith, (round.sends w lt_w).sized, inside)) in
      (
        p,
        (round.sends w lt_w).below j p at,
        λ r lt_r. ap (get_elem? (has_book r lt_r).0) e ∙ entry_shared r w j p lt_r lt_w at inside,
      )

  same_entry :
      (r : ℕ) (lt : r < n) (i : ℕ) → get_elem? (has_book r lt).0 i ≡ get_elem? (has_book 0 pos).0 i
  same_entry r lt i = elim (split_three i (m / n * n) m) [
    | inl inside ↦ let (p, _, at) = shared_entry i inside in at r lt ∙ sym (at 0 pos)
    | inr (inl (above, below)) ↦
        entry_left r i lt above below ∙ sym (entry_left 0 i pos above below)
    | inr (inr out) ↦
        get_elem?-none (has_book r lt).0 i (omega (arith, (has_book r lt).2, out))
        ∙ sym (get_elem?-none (has_book 0 pos).0 i (omega (arith, (has_book 0 pos).2, out)))
  ]

  -- After the round of the nodes all managers have the same book.
  pub node_round-book :
      (book : PartitionBook) × IsNodeBook m n book
      × ((r : ℕ) → r < n → (round.group.managers r).partition_book ≡ some book)
  node_round-book = (
    (has_book 0 pos).0,
    record {
      size = (has_book 0 pos).2;
      shared_out = λ i lt. let (p, below, at) = shared_entry i lt in (p, at 0 pos, below);
      left_over = λ i above below. entry_left 0 i pos above below;
    },
    λ r lt.
        (has_book r lt).1
        ∙ ap some (eq_of_get (has_book r lt).0 (has_book 0 pos).0 (same_entry r lt)),
  )

-- On `n` workers, each in its place, with the same number `m` of nodes, chunk sizes that are not zero
-- and random orders of the length of a chunk without an index out of range: in every run, all
-- workers get the same book of the `m` nodes; each of the first `m / n * n` nodes has a part below
-- `n`, and the others have the entry 0.
pub partition_node_agrees :
    (torch : Torch) {Row : Type 0} (n m : ℕ) (selves : ℕ → DistRandomPartitioner Row)
    (randperm : ℕ → ℕ → ℕ → List ℕ) (ntype : Option NodeType) (managers : ℕ → Manager (Value Row))
    (results : ℕ → Option PartitionBook)
    → 0 < n
    → ((w : ℕ) → w < n → IsMember n w (selves w))
    → ((w : ℕ) → w < n → IsOrder (randperm w))
    → ((w : ℕ) → w < n → of_type (selves w).num_nodes ntype ≡ some m)
    → AreRanked n managers
    → Runs torch n results managers (λ w. partition_node torch (selves w) (randperm w) ntype)
    → (book : PartitionBook) × IsNodeBook m n book × ((w : ℕ) → w < n → results w ≡ some book)
partition_node_agrees torch n m selves randperm ntype managers results pos members orders nodes
      ranked runs =
    let (round, programs, goes_on, rest) =
      Runs-Round torch n results managers (λ w. partition_node torch (selves w) (randperm w) ntype)
        (NodeChunks m n) m true (λ w values book. returns book) pos ranked
        (λ w lt.
          partition_node-calls torch n w m (selves w) (randperm w) ntype (members w lt) lt
            (orders w lt) (nodes w lt))
        runs in
    let (book, is_book, there) = node_round-book torch n m managers pos ranked round in
    (
      book,
      is_book,
      λ w lt.
          Runs-result torch n results round.group.managers programs w (some book) lt
            (goes_on w lt ∙ ap returns (there w lt)) rest,
    )

-- Under the same conditions on the workers there is a run in which all of them return.
pub partition_node-Runs :
    (torch : Torch) {Row : Type 0} (n m : ℕ) (selves : ℕ → DistRandomPartitioner Row)
    (randperm : ℕ → ℕ → ℕ → List ℕ) (ntype : Option NodeType) (managers : ℕ → Manager (Value Row))
    → ((w : ℕ) → w < n → IsMember n w (selves w))
    → ((w : ℕ) → w < n → IsOrder (randperm w))
    → ((w : ℕ) → w < n → of_type (selves w).num_nodes ntype ≡ some m)
    → AreRanked n managers
    → (results : ℕ → Option PartitionBook) × Runs torch n results managers
        (λ w. partition_node torch (selves w) (randperm w) ntype)
partition_node-Runs torch n m selves randperm ntype managers members orders nodes ranked =
    Round-Runs torch n m managers (λ w. partition_node torch (selves w) (randperm w) ntype)
      (NodeChunks m n) (λ w values book. returns book) none ranked
      (λ w lt.
        partition_node-calls torch n w m (selves w) (randperm w) ntype (members w lt) lt
          (orders w lt) (nodes w lt))
      (λ w c chunks res lt sends at. sends.split.chunk_sizes c res at)
      (λ w p i chunks lt sends sent.
        let (j, inside, e, _) = node-sent torch n w m chunks sends p i sent in
        omega (arith, e, inside, in_bounds m n w (omega arith) lt))
      (λ round w lt. ((round.group.managers w).partition_book, refl))
