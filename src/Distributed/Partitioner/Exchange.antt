-- ===== src/Distributed/Partitioner/Exchange.antt =====
-- A worker as the others see it: a program that now and then calls `_partition_by_chunk`, which
-- only returns when all workers of the group have called it. What it sends are the selected rows of
-- tuples of tensors: edges with their ids, or features with theirs.
use graphlearn_for_pytorch.Prelude.{ℕ, ◌<◌, ◌≡◌, Bool, Option, none, some, List, ◌>>=◌}
use graphlearn_for_pytorch.Torch.{Torch}
use graphlearn_for_pytorch.Typing.{PartitionBook}
use graphlearn_for_pytorch.Utils.Common.{Selector, tensor_select, pair_select}
use graphlearn_for_pytorch.Distributed.Partitioner.{
  Manager, Results, Reachable, Finished, Group, new_group,
}

pub data Value (Row : Type 0) : Type 0 where
  -- (rows, cols, eids)
  edge_columns : List ℕ × (List ℕ × List ℕ) → Value Row
  -- (feats, ids)
  feature_columns : List Row × List ℕ → Value Row

module _ (torch : Torch) {Row : Type 0} where
  -- `index_select` on the two kinds of tuples.
  unfoldable pub value_select : Selector (Value Row)
  value_select (edge_columns columns) index =
      pair_select (tensor_select torch) (pair_select (tensor_select torch) (tensor_select torch))
        columns index
      >>= λ selected. some (edge_columns selected)
  value_select (feature_columns columns) index =
      pair_select (tensor_select torch) (tensor_select torch) columns index >>= λ selected.
      some (feature_columns selected)

pub data Exchange (Row A : Type 0) : Type 0 where
  returns : A → Exchange Row A
  raises : Exchange Row A
  -- A call of `_partition_by_chunk`: the results of its chunks, the size of the book, whether there
  -- is one, and what follows, given the values of the own part and the book.
  collective :
      List (Results (Value Row))
      → ℕ
      → Bool
      → (List (Value Row) → Option PartitionBook → Exchange Row A)
      → Exchange Row A

module _ {Row : Type 0} where
  abbrev pub or_raise : {A : Type 0} → Option A → Exchange Row A
  or_raise none = raises
  or_raise (some a) = returns a

  abbrev pub and_then : {A B : Type 0} → Exchange Row A → (A → Exchange Row B) → Exchange Row B
  and_then (returns a) f = f a
  and_then raises f = raises
  and_then (collective chunks total_val_size generate_pb k) f =
      collective chunks total_val_size generate_pb (λ values book. and_then (k values book) f)

-- A run of the programs of `n` workers to the end: between two barriers the managers of all workers
-- exchange their chunks.
pub data Runs (torch : Torch) (n : ℕ) {Row A : Type 0} (results : ℕ → A)
    : (ℕ → Manager (Value Row)) → (ℕ → Exchange Row A) → Type 0 where
  all_return :
      (managers : ℕ → Manager (Value Row)) (programs : ℕ → Exchange Row A)
      → ((w : ℕ) → w < n → programs w ≡ returns (results w))
      → Runs torch n results managers programs
  exchanged :
      (managers : ℕ → Manager (Value Row)) (programs : ℕ → Exchange Row A)
      (chunks : ℕ → List (Results (Value Row))) (total_val_size : ℕ) (generate_pb : Bool)
      (k : ℕ → List (Value Row) → Option PartitionBook → Exchange Row A) (steps : ℕ)
      (g : Group (Value Row))
      → ((w : ℕ) → w < n → programs w ≡ collective (chunks w) total_val_size generate_pb (k w))
      → Reachable torch n (new_group torch managers total_val_size generate_pb chunks) steps g
      → Finished n g
      → Runs torch n results g.managers
          (λ w. k w (g.managers w).cur_part_val_list (g.managers w).partition_book)
      → Runs torch n results managers programs
