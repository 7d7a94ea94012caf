-- ===== src/Distributed/Partitioner/Nodes.antt =====
-- `_partition_node` on all workers of a group.
use graphlearn_for_pytorch.Prelude.{
  ℕ, zero, suc, ◌+◌, ◌-◌, ◌*◌, ◌/◌, ◌%◌, ◌≤◌, ◌<◌, min, ◌≡◌, refl, ap, ap₂, sym, ◌∙◌, true, Option,
  none, some, List, [], map, arith, length, string_keys, get_elem?, take, drop, range_from,
  length-range_from, get_elem?-range_from, length-take, length-drop, length-map, get_elem?-map,
  lt-length_of_get, some_inj, get_elem?-lt,
}
use mathlib.Core.Path.{subst}
use graphlearn_for_pytorch.Torch.{
  Torch, gather-in_range, length-gather, get_elem?-gather, AllBelow, AllBelow-get, gather,
}
use graphlearn_for_pytorch.Typing.{NodeType}
use graphlearn_for_pytorch.Partition.Base.{of_type}
use graphlearn_for_pytorch.Distributed.Partitioner.{Results}
use graphlearn_for_pytorch.Distributed.Partitioner.Chunked.{
  partition_by_chunk, GivesParts, AllSplit,
}
use graphlearn_for_pytorch.Distributed.Partitioner.Covered.{partition_by_chunk_splits}
use graphlearn_for_pytorch.Distributed.Partitioner.Sent.{AllSplit-IsSent, AllSplit-part}
use graphlearn_for_pytorch.Distributed.Partitioner.Agree.{IsSent}
use graphlearn_for_pytorch.Distributed.Partitioner.Exchange.{
  Value, value_select, returns, collective,
}
use graphlearn_for_pytorch.Distributed.Partitioner.Methods.{
  DistRandomPartitioner, node_pfn, local_node_ids, partition_node, divide,
}
use graphlearn_for_pytorch.Distributed.Partitioner.Rows.{value_items, value_select-Selects}

-- A random order of `len` positions, for every chunk.
abbrev pub IsOrder : (ℕ → ℕ → List ℕ) → Type 0
IsOrder randperm =
    (start len : ℕ) → (length (randperm start len) ≡ len) × AllBelow len (randperm start len)

divide_by : (m n : ℕ) → 0 < n → divide m n ≡ some (m / n)
divide_by m zero h = absurd (omega arith)
divide_by m (suc d) h = refl

-- The nodes of the worker `w` are nodes.
pub in_bounds : (m n w : ℕ) → 0 < n → w < n → m / n * w + m / n ≤ m
in_bounds m n w pos lt =
    let step : m / n * w + m / n ≡ m / n * (w + 1) = grind arith in
    let le : m / n * (w + 1) ≤ m / n * n = grind arith in
    let all : m / n * n ≤ m = grind arith in omega (arith, step, le, all)

-- A node belongs to one worker only, at one position.
pub one_owner :
    (per v w j k : ℕ) → j < per → k < per → per * v + j ≡ per * w + k → (v ≡ w) × (j ≡ k)
one_owner per v w j k lt lt' e = (owner, omega (arith, e, ap (λ x. per * x) owner))
  where
    owner : v ≡ w
    owner = grind arith

module _ (torch : Torch) {Row : Type 0} (self : DistRandomPartitioner Row) where
  -- With at least one part, the nodes of a chunk get parts that are there.
  node_pfn-GivesParts :
      (randperm : ℕ → ℕ → List ℕ) (ids : List ℕ)
      → IsOrder randperm
      → 0 < self.num_parts
      → GivesParts (node_pfn torch self randperm) ids (λ k p. p < self.num_parts)
  unfolding node_pfn
  node_pfn-GivesParts randperm ids order pos = λ s e le le'.
      let chunk = take (e - s) (drop s ids) in
      let rem = map (λ id. id % self.num_parts) chunk in
      let (len, below) = order s (length chunk) in
      let rem_len : length rem ≡ length chunk = length-map chunk (λ id. id % self.num_parts) in
      let (ps, run) =
        gather-in_range rem (randperm s (length chunk))
          (subst (λ m. AllBelow m (randperm s (length chunk))) (sym rem_len) below) in
      (
        ps,
        torch.index_law rem (randperm s (length chunk)) ∙ run,
        omega (
          arith,
          length-gather rem (randperm s (length chunk)) ps run,
          len,
          length-take (e - s) (drop s ids),
          length-drop s ids,
        ),
        λ j p at. below_parts s chunk ps j p below run at,
      )
    where
      below_parts :
          (s : ℕ) (chunk ps : List ℕ) (j p : ℕ)
          → AllBelow (length chunk) (randperm s (length chunk))
          → gather (map (λ id. id % self.num_parts) chunk) (randperm s (length chunk)) ≡ some ps
          → get_elem? ps j ≡ some p
          → p < self.num_parts
      below_parts s chunk ps j p below run at =
          let order_of = randperm s (length chunk) in
          let (i, at_i) = get_elem?-lt order_of j (
            omega (
              arith,
              lt-length_of_get ps j p at,
              length-gather (map (λ id. id % self.num_parts) chunk) order_of ps run,
            )) in
          let (v, at_v) =
            get_elem?-lt chunk i (AllBelow-get (length chunk) order_of j i below at_i) in
          let same : v % self.num_parts ≡ p = some_inj (
            sym (get_elem?-map (λ id. id % self.num_parts) chunk i v at_v)
            ∙ sym
                (get_elem?-gather (map (λ id. id % self.num_parts) chunk) order_of ps j i run at_i)
            ∙ at) in
          omega (arith, same)

  -- The nodes of one worker: as many for each, one after the other.
  local_ids-range :
      (node_num : ℕ)
      → 0 < self.num_parts
      → self.current_partition_idx < self.num_parts
      → local_node_ids torch self node_num
        ≡ some (
            range_from
              (node_num / self.num_parts * self.current_partition_idx)
              (node_num / self.num_parts))
  unfolding local_node_ids
  local_ids-range node_num pos lt =
      let per = node_num / self.num_parts in
      let fits = in_bounds node_num self.num_parts self.current_partition_idx pos lt in
      let next : per * (self.current_partition_idx + 1) ≡ per * self.current_partition_idx + per =
        grind arith in
      let end : min node_num (per * (self.current_partition_idx + 1))
            - per * self.current_partition_idx
          ≡ per =
        omega (arith, next, fits) in
      rw (divide_by node_num self.num_parts pos) (
        ap some (
          torch.arange_between_law (per * self.current_partition_idx)
            (min node_num (per * (self.current_partition_idx + 1))) (omega (arith, next, fits))
          ∙ ap (range_from (per * self.current_partition_idx)) end))

-- The worker `w` of `n`, with a chunk size that is not zero.
pub record IsMember {Row : Type 0} (n w : ℕ) (self : DistRandomPartitioner Row) : Type 0 where
  pub parts : self.num_parts ≡ n
  pub rank : self.current_partition_idx ≡ w
  pub chunked : 0 < self.chunk_size

-- The nodes that are shared out to the worker `w`.
abbrev pub nodes_of_worker : ℕ → ℕ → ℕ → List ℕ
nodes_of_worker m n w = range_from (m / n * w) (m / n)

-- What a worker sends in the node phase.
pub record NodeChunks {Row : Type 0} (m n w : ℕ) (chunks : List (Results (Value Row)))
    : Type 0 where
  pub parts : List ℕ
  pub sized : length parts ≡ m / n
  pub split : AllSplit value_items n (nodes_of_worker m n w) [] parts chunks
  pub below : (k p : ℕ) → get_elem? parts k ≡ some p → p < n

module _ (torch : Torch) {Row : Type 0} where
  node_chunks :
      (n w m : ℕ) (self : DistRandomPartitioner Row) (randperm : ℕ → ℕ → List ℕ)
      → IsMember n w self
      → w < n
      → IsOrder randperm
      → (chunks : List (Results (Value Row))) × (partition_by_chunk torch
            (value_select torch)
            self.num_parts
            self.chunk_size
            none
            (nodes_of_worker m n w)
            (node_pfn torch self randperm)
          ≡ some chunks)
        × NodeChunks m n w chunks
  node_chunks n w m self randperm member lt order =
      let pos : 0 < self.num_parts = omega (arith, member.parts) in
      let (parts, chunks, run, len, split, below) =
        partition_by_chunk_splits value_items (value_select-Selects torch) torch self.num_parts
          self.chunk_size none (nodes_of_worker m n w) (node_pfn torch self randperm)
          (λ k p. p < self.num_parts)
          (node_pfn-GivesParts torch self randperm (nodes_of_worker m n w) order pos) (λ d e. cc)
          member.chunked in
      (
        chunks,
        run,
        record {
          parts = parts;
          sized = len ∙ length-range_from (m / n * w) (m / n);
          split =
              subst (λ k. AllSplit value_items k (nodes_of_worker m n w) [] parts chunks)
                member.parts split;
          below = λ k p e. subst (λ q. p < q) member.parts (below k p e);
        },
      )

  pub partition_node-calls :
      (n w m : ℕ) (self : DistRandomPartitioner Row) (randperm : ℕ → ℕ → List ℕ)
      (ntype : Option NodeType)
      → IsMember n w self
      → w < n
      → IsOrder randperm
      → of_type self.num_nodes ntype ≡ some m
      → (chunks : List (Results (Value Row))) × (partition_node torch self randperm ntype
          ≡ collective chunks m true (λ values book. returns book))
        × NodeChunks m n w chunks
  unfolding partition_node
  partition_node-calls n w m self randperm ntype member lt order nodes =
      let (chunks, run, sends) = node_chunks n w m self randperm member lt order in
      let ids =
        local_ids-range torch self m (omega (arith, member.parts))
          (omega (arith, member.parts, member.rank))
        ∙ ap₂ (λ k v. some (range_from (m / k * v) (m / k))) member.parts member.rank in
      (chunks, rw (nodes, ids, run) refl, sends)

  -- Which ids a worker sends, and to which part.
  pub node-sent :
      (n w m : ℕ) (chunks : List (Results (Value Row))) (sends : NodeChunks m n w chunks) (p i : ℕ)
      → IsSent chunks p i
      → (k : ℕ) × (k < m / n) × (i ≡ m / n * w + k) × (get_elem? sends.parts k ≡ some p)
  node-sent n w m chunks sends p i sent =
      let lt =
        AllSplit-part value_items n (nodes_of_worker m n w) [] sends.parts chunks p i sends.split
          sent in
      let (k, at, part) =
        (AllSplit-IsSent value_items n (nodes_of_worker m n w) [] sends.parts chunks p i sends.split
            lt).0
          sent in
      let inside : k < m / n = omega (arith, lt-length_of_get sends.parts k p part, sends.sized) in
      (k, inside, some_inj (sym at ∙ get_elem?-range_from (m / n * w) (m / n) k inside), part)
