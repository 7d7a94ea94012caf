-- ===== src/Distributed/Partitioner.antt =====
-- `DistPartitionManager` of graphlearn_torch/python/distributed/dist_random_partitioner.py, and the
-- group of the workers that partition together. The managers of a group exchange two kinds of
-- remote calls, `RpcUpdatePartitionValueCallee` and `RpcUpdatePartitionBookCallee`; each runs under
-- the lock of the manager it reaches. A call is a value here, and the calls that a worker has issued
-- for its current chunk may be performed in any order, between those of the other workers.
use graphlearn_for_pytorch.Prelude.{
  ℕ, suc, ◌<◌, ◌≡◌, Bool, true, Option, none, some, List, [], ◌∷◌, ◌++◌, map, ◌==◌, if◌then◌else◌,
  length, range, ◌>>=◌, ◌>>◌, assert,
}
use graphlearn_for_pytorch.Torch.{Torch}
use graphlearn_for_pytorch.Typing.{PartitionBook}
use graphlearn_for_pytorch.Distributed.Context.{DistContext}
pub mod Chunked
pub mod Split
pub mod Covered
pub mod Sent
pub mod Exchange
pub mod Methods
pub mod Rows
pub mod Rounds
pub mod Nodes
pub mod NodeBook
pub mod Completes
pub mod Whole
pub mod Aligned
pub mod EdgeParts
pub mod EdgeRound
pub mod Joined
pub mod EdgeChunks
pub mod Keeps
pub mod Sums
pub mod Conserve
pub mod Runs
pub mod Values
pub mod Books
pub mod Agree
pub mod Progress
pub mod Ends

-- `V` is what one call sends to a part: the selected tensors of one chunk.
pub record Manager (V : Type 0) : Type 0 where
  pub num_parts : ℕ
  pub cur_pidx : ℕ
  pub generate_pb : Bool
  pub cur_part_val_list : List V
  pub partition_book : Option PartitionBook

-- A remote call: the worker it reaches, and its arguments.
pub data Update (V : Type 0) : Type 0 where
  val_update : ℕ → Option V → ℕ → Update V
  pb_update : ℕ → List ℕ → ℕ → Update V

-- `res_list`: for each part, a value (`None` if there is nothing to send) and its ids.
abbrev pub Results : Type 0 → Type 0
Results V = List (Option V × List ℕ)

module _ {V : Type 0} where
  unfoldable pub update_part_val : Manager V → Option V → ℕ → Option (Manager V)
  update_part_val m none target_pidx = assert (target_pidx == m.cur_pidx) >> some m
  update_part_val m (some val) target_pidx =
      assert (target_pidx == m.cur_pidx)
      >> some (record m { cur_part_val_list = m.cur_part_val_list ++ val ∷ [] })

  -- `_broadcast_pb`: one call for each worker, the own manager included.
  abbrev pub broadcast_pb : ℕ → List ℕ → ℕ → List (Update V)
  broadcast_pb num_parts val_idx target_pidx =
      map (λ pidx. pb_update pidx val_idx target_pidx) (range num_parts)

  -- The loop of `process`, from the part `pidx` on.
  abbrev pub updates : ℕ → Bool → ℕ → Results V → List (Update V)
  updates num_parts generate_pb pidx [] = []
  updates num_parts generate_pb pidx ((val, val_idx) ∷ res_list) =
      let rest = updates num_parts generate_pb (suc pidx) res_list in
      val_update pidx val pidx
      ∷ ((if generate_pb then broadcast_pb num_parts val_idx pidx else []) ++ rest)

  -- The calls that `process` issues and waits for.
  unfoldable pub process : Manager V → Results V → Option (List (Update V))
  process m res_list =
      assert (length res_list == m.num_parts) >> some (updates m.num_parts m.generate_pb 0 res_list)

  abbrev pub receiver : Update V → ℕ
  receiver (val_update worker val target_pidx) = worker
  receiver (pb_update worker val_idx target_pidx) = worker

module _ (torch : Torch) {V : Type 0} where
  unfoldable pub reset : Manager V → ℕ → Bool → Manager V
  reset m total_val_size generate_pb = record m {
    generate_pb = generate_pb;
    cur_part_val_list = [];
    partition_book = if generate_pb then some (torch.zeros total_val_size) else none;
  }

  unfoldable pub new_manager : Bool → DistContext → Option (Manager V)
  unfolding reset
  new_manager rpc_is_initialized context =
      assert rpc_is_initialized
      >> some (
          reset
            (record {
              num_parts = context.world_size;
              cur_pidx = context.rank;
              generate_pb = true;
              cur_part_val_list = [];
              partition_book = none;
            })
            1 true)

  unfoldable pub update_pb : Manager V → List ℕ → ℕ → Option (Manager V)
  update_pb m val_idx target_pidx = do
    book ← m.partition_book
    book' ← torch.index_fill book val_idx target_pidx
    some (record m { partition_book = some book' })

  -- What a call does to the manager that it reaches.
  unfoldable pub perform : Update V → Manager V → Option (Manager V)
  unfolding update_part_val update_pb
  perform (val_update worker val target_pidx) m = update_part_val m val target_pidx
  perform (pb_update worker val_idx target_pidx) m = update_pb m val_idx target_pidx

-- The function `f` with the value `x` at `w`.
abbrev pub put_at : {A : Type 0} → ℕ → A → (ℕ → A) → ℕ → A
put_at w x f i = if i == w then x else f i

-- The workers' managers, the calls of each worker's current chunk that are not yet performed, and
-- the results of its chunks that it has still to process.
pub record Group (V : Type 0) : Type 0 where
  pub managers : ℕ → Manager V
  pub pending : ℕ → List (Update V)
  pub chunks : ℕ → List (Results V)

module _ (torch : Torch) {V : Type 0} where
  -- The group when every worker has reset its manager: after the first barrier.
  unfoldable pub new_group : (ℕ → Manager V) → ℕ → Bool → (ℕ → List (Results V)) → Group V
  unfolding reset
  new_group managers total_val_size generate_pb chunks = record {
    managers = λ w. reset torch (managers w) total_val_size generate_pb;
    pending = λ w. [];
    chunks = chunks;
  }

module _ (torch : Torch) (n : ℕ) {V : Type 0} where
  pub data Step : Group V → Group V → Type 0 where
    -- Some call of the worker `w` is performed.
    performed :
        (g : Group V) (w : ℕ) (before : List (Update V)) (u : Update V) (after : List (Update V))
        (m : Manager V)
        → w < n
        → g.pending w ≡ before ++ u ∷ after
        → perform torch u (g.managers (receiver u)) ≡ some m
        → Step g (record g {
          managers = put_at (receiver u) m g.managers;
          pending = put_at w (before ++ after) g.pending;
        })
    -- The worker `w` has waited for all its calls, and processes its next chunk.
    next_chunk :
        (g : Group V) (w : ℕ) (res_list : Results V) (rest : List (Results V))
        (us : List (Update V))
        → w < n
        → g.pending w ≡ []
        → g.chunks w ≡ res_list ∷ rest
        → process (g.managers w) res_list ≡ some us
        → Step g (record g { pending = put_at w us g.pending; chunks = put_at w rest g.chunks })

  -- The states after a number of steps from the group `start`.
  pub data Reachable (start : Group V) : ℕ → Group V → Type 0 where
    at_first : Reachable start 0 start
    later :
        {k : ℕ} {g next : Group V}
        → Reachable start k g
        → Step g next
        → Reachable start (suc k) next

-- Every worker has reached the last barrier.
abbrev pub Finished : {V : Type 0} → ℕ → Group V → Type 0
Finished n g = (w : ℕ) → w < n → (g.pending w ≡ []) × (g.chunks w ≡ [])
