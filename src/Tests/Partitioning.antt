-- ===== src/Tests/Partitioning.antt =====
-- Two workers that partition five nodes together, in chunks of one node.
use graphlearn_for_pytorch.Prelude.{
  ℕ, zero, suc, ◌+◌, ◌≤◌, ◌<◌, ◌≡◌, ◌⊎◌, refl, true, none, some, Option, List, [], ◌∷◌, arith,
  get_elem?, length, range, range_from, length-range_from, ap, sym, some_inj,
}
use graphlearn_for_pytorch.Torch.{AllBelow}
use graphlearn_for_pytorch.Torch.Concrete.{concrete}
use graphlearn_for_pytorch.Typing.{PartitionBook}
use graphlearn_for_pytorch.Partition.Base.{homo, by_src}
use graphlearn_for_pytorch.Distributed.Partitioner.{
  Manager, Results, Group, Step, Reachable, at_first, Finished, new_group, reset,
}
use graphlearn_for_pytorch.Distributed.Partitioner.Sums.{weigh, total}
use graphlearn_for_pytorch.Distributed.Partitioner.Values.{sent, new_group-values_kept}
use graphlearn_for_pytorch.Distributed.Partitioner.Runs.{ArePlaced}
use graphlearn_for_pytorch.Distributed.Partitioner.Agree.{IsSent}
use graphlearn_for_pytorch.Distributed.Partitioner.Ends.{
  remaining, new_group-runs_end, new_group-finishes,
}
use graphlearn_for_pytorch.Distributed.Partitioner.Chunked.{partition_by_chunk, given_ids}
use graphlearn_for_pytorch.Distributed.Partitioner.Sent.{IsSent-given}
use graphlearn_for_pytorch.Distributed.Partitioner.Exchange.{returns, collective}
use graphlearn_for_pytorch.Distributed.Partitioner.Methods.{DistRandomPartitioner, partition_node}
use graphlearn_for_pytorch.Distributed.Partitioner.Nodes.{IsOrder, IsMember}
use graphlearn_for_pytorch.Distributed.Partitioner.NodeBook.{
  IsNodeBook, partition_node_agrees, partition_node-Runs,
}

abbrev member : ℕ → DistRandomPartitioner ℕ
member w = record {
  num_parts = 2;
  current_partition_idx = w;
  num_nodes = homo 5;
  edge_index = homo ([], []);
  edge_ids = homo [];
  node_feat = none;
  node_feat_ids = homo [];
  edge_feat = none;
  edge_feat_ids = homo [];
  num_edges = homo 0;
  node_types = [];
  edge_types = [];
  edge_assign_strategy = by_src;
  chunk_size = 1;
}

abbrev in_order : ℕ → ℕ → ℕ → List ℕ
in_order w start len = range len

abbrev manager : {V : Type 0} → ℕ → Manager V
manager w = record {
  num_parts = 2;
  cur_pidx = w;
  generate_pb = true;
  cur_part_val_list = [];
  partition_book = none;
}

in_order-IsOrder : (w : ℕ) → IsOrder (in_order w)
in_order-IsOrder w start len =
    (length-range_from 0 len, range_from-AllBelow 0 len len (omega arith))
  where
    range_from-AllBelow : (s k n : ℕ) → s + k ≤ n → AllBelow n (range_from s k)
    range_from-AllBelow s zero n le = tt
    range_from-AllBelow s (suc k) n le =
        (omega (arith, le), range_from-AllBelow (suc s) k n (omega (arith, le)))

second_program :
    partition_node concrete (member 1) (in_order 1) none
    ≡ collective
        (((none, 2 ∷ []) ∷ (none, []) ∷ []) ∷ ((none, []) ∷ (none, 3 ∷ []) ∷ []) ∷ [])
        5
        true
        (λ values book. returns book)
unfolding partition_node concrete partition_by_chunk
second_program = refl

member-IsMember : (w : ℕ) → w < 2 → IsMember 2 w (member w)
member-IsMember w lt = record { parts = refl; rank = refl; chunked = omega arith }

abbrev node_results : ℕ → Option PartitionBook
node_results =
    (partition_node-Runs concrete 2 5 member in_order none manager member-IsMember
      (λ w lt. in_order-IsOrder w) (λ w lt. refl) (λ w lt. (refl, refl))).0

partition_node_agrees_example :
    (book : PartitionBook) × IsNodeBook 5 2 book × ((w : ℕ) → w < 2 → node_results w ≡ some book)
partition_node_agrees_example =
    partition_node_agrees concrete 2 5 member in_order none manager node_results (omega arith)
      member-IsMember (λ w lt. in_order-IsOrder w) (λ w lt. refl) (λ w lt. (refl, refl))
      (partition_node-Runs concrete 2 5 member in_order none manager member-IsMember
        (λ w lt. in_order-IsOrder w) (λ w lt. refl) (λ w lt. (refl, refl))).1

-- Each worker sends the value 7 and the id 0 or 1 to the other part.
abbrev crossing : ℕ → List (Results ℕ)
crossing zero = ((none, []) ∷ (some 7, 0 ∷ []) ∷ []) ∷ []
crossing (suc w) = ((some 7, 1 ∷ []) ∷ (none, []) ∷ []) ∷ []

abbrev crossing_group : Group ℕ
crossing_group = new_group concrete manager 2 true crossing

crossing-ArePlaced : ArePlaced 2 true crossing_group.managers
unfolding new_group reset
crossing-ArePlaced w lt = record { parts = refl; rank = refl; books = refl }

crossing_sizes :
    (w c : ℕ) (res_list : Results ℕ)
    → w < 2
    → get_elem? (crossing w) c ≡ some res_list
    → length res_list ≡ 2
crossing_sizes zero zero res lt e = ap (λ r. length r) (sym (some_inj e))
crossing_sizes zero (suc c) res lt e = cc
crossing_sizes (suc w) zero res lt e = ap (λ r. length r) (sym (some_inj e))
crossing_sizes (suc w) (suc c) res lt e = cc

crossing_below : (w p i : ℕ) → w < 2 → IsSent (crossing w) p i → i < 2
crossing_below w p i lt sent = let (j, at) = IsSent-given (crossing w) p i sent in small w p j i at
  where
    small : (w p j i : ℕ) → get_elem? (given_ids p (crossing w)) j ≡ some i → i < 2
    small zero zero j i e = cc
    small zero (suc zero) zero i e = omega (arith, some_inj e)
    small zero (suc zero) (suc j) i e = cc
    small zero (suc (suc p)) j i e = cc
    small (suc w) zero zero i e = omega (arith, some_inj e)
    small (suc w) zero (suc j) i e = cc
    small (suc w) (suc zero) j i e = cc
    small (suc w) (suc (suc p)) j i e = cc

new_group-runs_end_example :
    (Finished 2 crossing_group × (0 ≡ remaining 2 true crossing_group))
    ⊎ ((0 < remaining 2 true crossing_group)
        × (next : Group ℕ) × Step concrete 2 crossing_group next)
new_group-runs_end_example =
    new_group-runs_end 2 true concrete 2 manager crossing 0 crossing_group crossing-ArePlaced
      crossing_sizes crossing_below at_first

abbrev crossing_end :
    (k : ℕ) × (g : Group ℕ) × Reachable concrete 2 crossing_group k g × Finished 2 g
crossing_end =
    new_group-finishes 2 true concrete 2 manager crossing crossing-ArePlaced crossing_sizes
      crossing_below

new_group-values_kept_example :
    weigh (λ v. v) (crossing_end.1.managers 1).cur_part_val_list
    ≡ total 2 (λ w. weigh (sent (λ v. v) 1) (crossing w))
new_group-values_kept_example =
    new_group-values_kept concrete 2 2 true manager crossing (λ v. v) 1 crossing_end.0
      crossing_end.1 crossing-ArePlaced crossing_end.2 crossing_end.3
