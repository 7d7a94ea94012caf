-- ===== src/Distributed/Rpc/Router.antt =====
-- `RpcDataPartitionRouter` of graphlearn_torch/python/distributed/rpc.py: requests for a partition
-- go round the workers that hold it.
use native.Mathlib.Nat.{mod-add-mod, mod-eq_of_lt}
use graphlearn_for_pytorch.Prelude.{
  ℕ, zero, suc, ◌+◌, ◌%◌, ◌<◌, ◌≡◌, ◌≢◌, refl, ap, sym, ◌∙◌, Option, none, some, List, [], ◌∷◌,
  arith, ◌==◌, if◌then◌else◌, length, get_elem?, set, replicate, ◌>>=◌, length-set,
  get_elem?-set_self, get_elem?-set_ne, get_elem?-lt, lt-length_of_get, Bool-cases, ==_iff, inl,
  inr, get_elem?-replicate, length-replicate, >>=-eq-some, some_inj, lt-length_of_get,
}
use graphlearn_for_pytorch.Typing.{String}

pub record RpcDataPartitionRouter : Type 0 where
  pub partition2workers : List (List String)
  pub rpc_worker_indexs : List ℕ

abbrev pub all_served : List (List String) → Option (Unit {0})
all_served [] = some tt
all_served (workers ∷ rest) = if length workers == 0 then none else all_served rest

-- `__init__`: a partition without a worker raises.
unfoldable pub new_router : List (List String) → Option RpcDataPartitionRouter
new_router partition2workers = all_served partition2workers >>= λ _. some (record {
  partition2workers = partition2workers;
  rpc_worker_indexs = replicate (length partition2workers) 0;
})

unfoldable pub get_to_worker : RpcDataPartitionRouter → ℕ → Option (String × RpcDataPartitionRouter)
get_to_worker self idx = do
  rpc_worker_list ← get_elem? self.partition2workers idx
  worker_index ← get_elem? self.rpc_worker_indexs idx
  to_worker ← get_elem? rpc_worker_list worker_index
  let next = (worker_index + 1) % length rpc_worker_list
  some (to_worker, record self { rpc_worker_indexs = set self.rpc_worker_indexs idx next })

-- The partition requests of a run, one after another, and the workers chosen.
unfoldable pub route_all :
    RpcDataPartitionRouter → List ℕ → Option (List String × RpcDataPartitionRouter)
route_all self [] = some ([], self)
route_all self (idx ∷ idxs) = do
  (to_worker, next) ← get_to_worker self idx
  (workers, last) ← route_all next idxs
  some (to_worker ∷ workers, last)

-- Every partition has a current worker.
pub record IsRoutable (self : RpcDataPartitionRouter) : Type 0 where
  pub same : length self.rpc_worker_indexs ≡ length self.partition2workers
  pub current :
      (idx i : ℕ) (workers : List String)
      → get_elem? self.partition2workers idx ≡ some workers
      → get_elem? self.rpc_worker_indexs idx ≡ some i
      → i < length workers

all_served-pos :
    (books : List (List String))
    → all_served books ≡ some tt
    → (idx : ℕ) (workers : List String) → get_elem? books idx ≡ some workers
    → 0 < length workers
all_served-pos [] h idx workers e = cc
all_served-pos (w ∷ ws) h zero workers e = ground arith
all_served-pos (w ∷ ws) h (suc idx) workers e = all_served-pos ws (ground arith) idx workers e

first_is_below :
    (books : List (List String)) (idx i : ℕ) (workers : List String)
    → get_elem? books idx ≡ some workers
    → get_elem? (replicate (length books) 0) idx ≡ some i
    → 0 < length workers
    → i < length workers
first_is_below books idx i workers pw pi h =
    grind
      (arith, get_elem?-replicate {A = ℕ} (length books) idx 0, lt-length_of_get books idx workers)

made_IsRoutable :
    (books : List (List String)) (router : RpcDataPartitionRouter)
    → all_served books ≡ some tt
    → record { partition2workers = books; rpc_worker_indexs = replicate (length books) 0 } ≡ router
    → IsRoutable router × (router.partition2workers ≡ books)
made_IsRoutable books router served made = rw (← made) (
  record {
    same = length-replicate (length books) 0;
    current = λ idx i workers pw pi.
        first_is_below books idx i workers pw pi (all_served-pos books served idx workers pw);
  },
  refl,
)

-- A router that is made serves every partition.
pub new_router-IsRoutable :
    (books : List (List String)) (router : RpcDataPartitionRouter)
    → new_router books ≡ some router
    → IsRoutable router × (router.partition2workers ≡ books)
unfolding new_router
new_router-IsRoutable books router h =
    let (u, served, made) = >>=-eq-some (all_served books) _ h in
    made_IsRoutable books router served (some_inj made)

abbrev moved : RpcDataPartitionRouter → ℕ → ℕ → RpcDataPartitionRouter
moved self idx next = record self { rpc_worker_indexs = set self.rpc_worker_indexs idx next }

moved_at :
    (books : List (List String)) (indexs : List ℕ) (idx j next i : ℕ) (workers others : List String)
    → idx ≡ j
    → next < length workers
    → get_elem? books idx ≡ some workers
    → get_elem? books j ≡ some others
    → get_elem? (set indexs idx next) j ≡ some i
    → i < length others
moved_at books indexs idx j next i workers others e h pw pj pi = grind (
  arith,
  get_elem?-set_self indexs idx next,
  lt-length_of_get (set indexs idx next) idx i,
  length-set indexs idx next,
)

moved-IsRoutable :
    (self : RpcDataPartitionRouter) (idx next : ℕ) (workers : List String)
    → IsRoutable self
    → get_elem? self.partition2workers idx ≡ some workers
    → next < length workers
    → IsRoutable (moved self idx next)
moved-IsRoutable self idx next workers ok pw h = record {
  same = length-set self.rpc_worker_indexs idx next ∙ ok.same;
  current = λ j i others pj pi. elim (Bool-cases (idx == j)) [
    | inl e ↦
        moved_at self.partition2workers self.rpc_worker_indexs idx j next i workers others
          (grind (arith, ==_iff idx j)) h pw pj pi
    | inr ne ↦ ok.current j i others pj (
        sym (get_elem?-set_ne self.rpc_worker_indexs idx j next (grind (arith, ==_iff idx j))) ∙ pi)
  ];
}

-- From a router in which every partition has a current worker, a request for a partition that
-- exists is answered with that worker, and leaves such a router, with the same workers, in which only the partition's index
-- has moved on, to the next worker, or from the last to the first.
pub get_to_worker-round_robin :
    (self : RpcDataPartitionRouter) (idx i : ℕ) (workers : List String)
    → IsRoutable self
    → get_elem? self.partition2workers idx ≡ some workers
    → get_elem? self.rpc_worker_indexs idx ≡ some i
    → (worker : String) × (next : RpcDataPartitionRouter) × (get_to_worker self idx
        ≡ some (worker, next))
      × (get_elem? workers i ≡ some worker)
      × IsRoutable next
      × (next.partition2workers ≡ self.partition2workers)
      × (get_elem? next.rpc_worker_indexs idx ≡ some ((i + 1) % length workers))
      × ((j : ℕ)
          → j ≢ idx
          → get_elem? next.rpc_worker_indexs j ≡ get_elem? self.rpc_worker_indexs j)
unfolding get_to_worker
get_to_worker-round_robin self idx i workers ok pw pi =
    let (worker, found) = get_elem?-lt workers i (ok.current idx i workers pw pi) in
    (
      worker,
      moved self idx ((i + 1) % length workers),
      simp (pw, pi, found),
      found,
      moved-IsRoutable self idx _ workers ok pw
          (omega (arith, lt-length_of_get workers i worker found)),
      refl,
      get_elem?-set_self self.rpc_worker_indexs idx _
          (lt-length_of_get self.rpc_worker_indexs idx i pi),
      λ j other. get_elem?-set_ne self.rpc_worker_indexs idx j _ (λ e. other (sym e)),
    )

turn_later :
    (workers : List String) (worker : String) (chosen : List String) (i n : ℕ)
    → get_elem? workers i ≡ some worker
    → i < length workers
    → ((k : ℕ)
        → k < n
        → get_elem? chosen k ≡ get_elem? workers (((i + 1) % length workers + k) % length workers))
    → (k : ℕ) → k < suc n
    → get_elem? (worker ∷ chosen) k ≡ get_elem? workers ((i + k) % length workers)
turn_later workers worker chosen i n found h turn zero lt =
    sym found
    ∙ sym (
        ap (get_elem? workers)
          (ap (λ m. m % length workers) (omega arith) ∙ mod-eq_of_lt {n = i} h))
turn_later workers worker chosen i n found h turn (suc k) lt =
    turn k (omega arith)
    ∙ ap (get_elem? workers)
        (mod-add-mod (i + 1) (length workers) k ∙ ap (λ m. m % length workers) (omega arith))

-- Requests for one partition, one after another, are answered by its workers in turn: the k-th
-- by the worker k places after the current one, counted round the list.
pub route_all-in_turn :
    (n : ℕ) (self : RpcDataPartitionRouter) (idx i : ℕ) (workers : List String)
    → IsRoutable self
    → get_elem? self.partition2workers idx ≡ some workers
    → get_elem? self.rpc_worker_indexs idx ≡ some i
    → (chosen : List String) × (last : RpcDataPartitionRouter) × (route_all self (replicate n idx)
        ≡ some (chosen, last))
      × (length chosen ≡ n)
      × ((k : ℕ) → k < n → get_elem? chosen k ≡ get_elem? workers ((i + k) % length workers))
unfolding route_all
route_all-in_turn zero self idx i workers ok pw pi =
    ([], self, refl, refl, λ k h. absurd (omega arith))
route_all-in_turn (suc n) self idx i workers ok pw pi =
    let (worker, next, answered, found, ok', same, pi', rest) =
      get_to_worker-round_robin self idx i workers ok pw pi in
    let (chosen, last, run, count, turn) =
      route_all-in_turn n next idx ((i + 1) % length workers) workers ok' (rw same pw) pi' in
    (
      worker ∷ chosen,
      last,
      simp (answered, run),
      omega (arith, count),
      turn_later workers worker chosen i n found (ok.current idx i workers pw pi) turn,
    )
