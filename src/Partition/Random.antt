-- ===== src/Partition/Random.antt =====
-- `RandomPartitioner` of graphlearn_torch/python/partition/random_partitioner.py.
use graphlearn_for_pytorch.Prelude.{
  ℕ, ◌+◌, ◌%◌, ◌<◌, ◌≡◌, ◌↔◌, refl, ap, sym, ◌∙◌, true, Option, none, some, List, [], ◌∷◌, map,
  arith, ◌==◌, ==_iff, ◌>>=◌, traverse, length, get_elem?, range, string_keys, length-map,
  length-range_from, get_elem?-map, get_elem?-range_from, get_elem?-lt, lt-length_of_get, some_inj,
}
use graphlearn_for_pytorch.Torch.{
  Torch, gather, gather-in_range, length-gather, get_elem?-gather, AllBelow, AllBelow-get,
  masked-eq-select, contains,
}
use graphlearn_for_pytorch.Typing.{NodeType, PartitionBook}
use graphlearn_for_pytorch.Partition.Base.{PartitionerBase, of_type}
use graphlearn_for_pytorch.Partition.Chunks.{in_part}
use graphlearn_for_pytorch.Partition.Edges.{ids_from, contains-ids}
use graphlearn_for_pytorch.Partition.Run.{NodePartitioner}

module _ (torch : Torch) (randperm : ℕ → List ℕ) {Row : Type 0} (self : PartitionerBase Row) where
  -- `ids % self.num_parts`
  abbrev remainders : List ℕ → PartitionBook
  remainders ids = map (λ id. id % self.num_parts) ids

  unfoldable pub random_partition_node : Option NodeType → Option (List (List ℕ) × PartitionBook)
  random_partition_node ntype = do
    node_num ← of_type self.num_nodes ntype
    let ids = torch.arange node_num
    partition_book ← torch.index (remainders ids) (randperm (length ids))
    partition_results ←
        traverse (λ pidx. torch.masked_select ids (map (λ q. q == pidx) partition_book))
          (range self.num_parts)
    some (partition_results, partition_book)

  unfoldable pub random_cache_node : Option NodeType → Option (List (Option (List ℕ)))
  random_cache_node ntype = some (map (λ pidx. none) (range self.num_parts))

  unfoldable pub random_partitioner : NodePartitioner
  unfolding random_partition_node random_cache_node
  random_partitioner = record {
    partition_node = random_partition_node;
    cache_node = random_cache_node;
  }

  selected :
      (n : ℕ) (book : PartitionBook)
      → length book ≡ n
      → (pidxs : List ℕ)
      → traverse (λ pidx. torch.masked_select (torch.arange n) (map (λ q. q == pidx) book)) pidxs
        ≡ some (map (ids_from 0 book) pidxs)
  selected n book len [] = refl
  selected n book len (pidx ∷ pidxs) = rw (masked, selected n book len pidxs) refl
    where
      masked :
          torch.masked_select (torch.arange n) (map (λ q. q == pidx) book)
          ≡ some (ids_from 0 book pidx)
      masked =
          rw (torch.arange_law n, torch.masked_select_law, ← len)
            (masked-eq-select (range (length book)) (in_part pidx book)
              (length-range_from 0 (length book) ∙ sym (length-map book (λ q. q == pidx))))

  abbrev shuffled : ℕ → Option PartitionBook
  shuffled n = torch.index (remainders (torch.arange n)) (randperm (length (torch.arange n)))

  shuffle :
      (n : ℕ)
      → length (randperm n) ≡ n
      → AllBelow n (randperm n)
      → (book : PartitionBook) × (shuffled n ≡ some book)
        × (gather (remainders (range n)) (randperm n) ≡ some book)
  shuffle n len below =
      let size : length (remainders (range n)) ≡ n =
        length-map (range n) (λ id. id % self.num_parts) ∙ length-range_from 0 n in
      let (book, e) = gather-in_range (remainders (range n)) (randperm n) (rw size below) in
      (
        book,
        torch.index_law _ _
            ∙ ap (λ xs. gather (remainders xs) (randperm (length xs))) (torch.arange_law n)
            ∙ ap (λ m. gather (remainders (range n)) (randperm m)) (length-range_from 0 n)
            ∙ e,
        e,
      )

  entry :
      (n : ℕ) (book : PartitionBook)
      → length (randperm n) ≡ n
      → AllBelow n (randperm n)
      → gather (remainders (range n)) (randperm n) ≡ some book
      → 0 < self.num_parts
      → (v : ℕ) → v < n
      → (p : ℕ) × (get_elem? book v ≡ some p) × (p < self.num_parts)
  entry n book len below e pos v lt =
      let (i, at) = get_elem?-lt (randperm n) v (omega (arith, len)) in
      let inside : i < n = AllBelow-get n (randperm n) v i below at in
      (
        (0 + i) % self.num_parts,
        get_elem?-gather (remainders (range n)) (randperm n) book v i e at
            ∙ get_elem?-map (λ id. id % self.num_parts) (range n) i (0 + i)
                (get_elem?-range_from 0 n i inside),
        omega arith,
      )

  -- A list of the result, and the entry of the book for a node.
  in_list :
      (book : PartitionBook) (p v t : ℕ) (ids : List ℕ)
      → get_elem? (map (ids_from 0 book) (range self.num_parts)) p ≡ some ids
      → get_elem? book v ≡ some t
      → (contains ids v ≡ true) ↔ (get_elem? book v ≡ some p)
  in_list book p v t ids at e =
      let below : p < self.num_parts = omega (
        arith,
        lt-length_of_get (map (ids_from 0 book) (range self.num_parts)) p ids at,
        length-map (range self.num_parts) (ids_from 0 book),
        length-range_from 0 self.num_parts,
      ) in
      let same : ids_from 0 book (0 + p) ≡ ids = some_inj (
        sym (
          get_elem?-map (ids_from 0 book) (range self.num_parts) p (0 + p)
            (get_elem?-range_from 0 self.num_parts p below))
        ∙ at) in
      let there : contains ids v ≡ (t == (0 + p)) = rw (← same) (contains-ids book (0 + p) v t e) in
      let plain : 0 + p ≡ p = omega arith in
      (
        (λ h. e ∙ ap some ((==_iff t (0 + p)).0 (sym there ∙ h) ∙ plain)),
        (λ h. there ∙ (==_iff t (0 + p)).1 (some_inj (sym e ∙ h) ∙ sym plain)),
      )

  -- For a random order without an index out of range, and at least one part: the nodes are
  -- split into as many lists as there are parts, a node is in the list of a part exactly if the
  -- book sends it there, and the book sends every node to a part.
  pub random_partition_node_splits :
      (ntype : Option NodeType) (n : ℕ)
      → of_type self.num_nodes ntype ≡ some n
      → length (randperm n) ≡ n
      → AllBelow n (randperm n)
      → 0 < self.num_parts
      → (lists : List (List ℕ)) × (book : PartitionBook) × (random_partition_node ntype
          ≡ some (lists, book))
        × (length lists ≡ self.num_parts)
        × (length book ≡ n)
        × ((v : ℕ) → v < n → (p : ℕ) × (get_elem? book v ≡ some p) × (p < self.num_parts))
        × ((p v : ℕ) (ids : List ℕ)
            → get_elem? lists p ≡ some ids
            → v < n
            → (contains ids v ≡ true) ↔ (get_elem? book v ≡ some p))
  unfolding random_partition_node
  random_partition_node_splits ntype n hn len below pos =
      let (book, run, e) = shuffle n len below in
      let size : length book ≡ n = length-gather (remainders (range n)) (randperm n) book e ∙ len in
      let sent = entry n book len below e pos in
      (
        map (ids_from 0 book) (range self.num_parts),
        book,
        rw (hn, run, selected n book size (range self.num_parts)) refl,
        length-map (range self.num_parts) (ids_from 0 book) ∙ length-range_from 0 self.num_parts,
        size,
        sent,
        λ p v ids at lt. in_list book p v (sent v lt).0 ids at (sent v lt).1,
      )
