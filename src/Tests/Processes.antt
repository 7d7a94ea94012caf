-- ===== src/Tests/Processes.antt =====
-- Roles and ranks, and requests routed in turn.
use graphlearn_for_pytorch.Distributed.Rpc.Names.{Member, Names, init_names, role_keys}
use graphlearn_for_pytorch.Distributed.Rpc.Names.Table.{
  IsGroup, size_of, after_all, init_names-placed, init_names-raises,
}
use graphlearn_for_pytorch.Distributed.Rpc.Register.{
  Callees, CalleeIds, all_same, rpc_register, rpc_call, IsPool, rpc_register-calls,
}
use graphlearn_for_pytorch.Prelude.{
  suc, ◌*◌, true, Option, some, ==_ne, lookup, ℕ, zero, ◌+◌, ◌%◌, ◌<◌, ◌≡◌, ◌≢◌, ◌⊎◌, ◌↔◌, ◌≤◌,
  refl, none, some, List, [], ◌∷◌, arith, length, get_elem?, replicate,
}
use graphlearn_for_pytorch.Typing.{String}
use graphlearn_for_pytorch.Distributed.Context.{
  DistContext, set_server_context, set_client_context, num_servers, num_clients,
  set_context-rank_owner, set_context-fails, server, client,
}
use graphlearn_for_pytorch.Distributed.Context.{worker, DistRole}
use graphlearn_for_pytorch.Distributed.Rpc.Sync.{
  Report, rpc_sync_data_partitions, workers_of, rpc_sync_data_partitions-groups,
}
use graphlearn_for_pytorch.Distributed.Rpc.Router.{
  RpcDataPartitionRouter, new_router, get_to_worker, route_all, IsRoutable, new_router-IsRoutable,
  get_to_worker-round_robin, route_all-in_turn,
}

set_context-rank_owner_example :
    (ctx : DistContext) × (ctx.global_rank ≡ 4)
    × (ctx.rank < ctx.world_size)
    × (num_servers ctx ≡ 2)
    × (num_clients ctx ≡ 3)
    × ((set_server_context 2 3 4 none ≡ some ctx)
        ⊎ ((r : ℕ) × (set_client_context 2 3 r none ≡ some ctx)))
set_context-rank_owner_example =
    set_context-rank_owner 2 3 4 none (omega arith) (omega arith) (omega arith)

abbrev second_server : DistContext
second_server = record {
  role = server;
  group_name = "_default_server";
  world_size = 2;
  rank = 1;
  global_world_size = 5;
  global_rank = 1;
}

abbrev third_client : DistContext
third_client = record {
  role = client;
  group_name = "_default_client";
  world_size = 3;
  rank = 2;
  global_world_size = 5;
  global_rank = 4;
}

server_is_set : set_server_context 2 3 1 none ≡ some second_server
unfolding set_server_context
server_is_set = refl

client_is_set : set_client_context 2 3 2 none ≡ some third_client
unfolding set_client_context
client_is_set = refl

set_context-fails_example :
    ((set_server_context 2 3 2 none ≡ none) ↔ ((2 ≡ zero) ⊎ ((3 ≡ zero) ⊎ (2 ≤ 2))))
    × ((set_client_context 2 3 2 none ≡ none) ↔ ((2 ≡ zero) ⊎ ((3 ≡ zero) ⊎ (3 ≤ 2))))
set_context-fails_example = set_context-fails 2 3 2 none

abbrev workers : List String
workers = "w0" ∷ "w1" ∷ "w2" ∷ []

abbrev books : List (List String)
books = ("v" ∷ []) ∷ workers ∷ []

abbrev fresh : RpcDataPartitionRouter
fresh = record { partition2workers = books; rpc_worker_indexs = 0 ∷ 0 ∷ [] }

fresh_made : new_router books ≡ some fresh
unfolding new_router
fresh_made = refl

fresh_ok : IsRoutable fresh
fresh_ok = (new_router-IsRoutable books fresh fresh_made).0

get_to_worker-round_robin_example :
    (worker : String) × (next : RpcDataPartitionRouter) × (get_to_worker fresh 1
      ≡ some (worker, next))
    × (get_elem? workers 0 ≡ some worker)
    × IsRoutable next
    × (next.partition2workers ≡ books)
    × (get_elem? next.rpc_worker_indexs 1 ≡ some 1)
    × ((j : ℕ) → j ≢ 1 → get_elem? next.rpc_worker_indexs j ≡ get_elem? {A = ℕ} (0 ∷ 0 ∷ []) j)
get_to_worker-round_robin_example = get_to_worker-round_robin fresh 1 0 workers fresh_ok refl refl

route_all-in_turn_example :
    (chosen : List String) × (last : RpcDataPartitionRouter) × (route_all fresh (replicate 5 1)
      ≡ some (chosen, last))
    × (length chosen ≡ 5)
    × ((k : ℕ) → k < 5 → get_elem? chosen k ≡ get_elem? workers ((0 + k) % 3))
route_all-in_turn_example = route_all-in_turn 5 fresh 1 0 workers fresh_ok refl refl

abbrev reports : List (String × Report)
reports = ("a", (worker, 2, 1)) ∷ ("b", (worker, 2, 0)) ∷ ("c", (worker, 2, 1)) ∷ []

rpc_sync_data_partitions-groups_example :
    (books : List (List String)) × (rpc_sync_data_partitions worker 2 reports ≡ some books)
    × (length books ≡ 2)
    × ((p : ℕ) → p < 2 → get_elem? books p ≡ some (workers_of reports p))
rpc_sync_data_partitions-groups_example = rpc_sync_data_partitions-groups worker 2 reports refl

abbrev five_members : List (String × Member)
five_members =
    ("s0", (server, 2, 0))
    ∷ ("c1", (client, 3, 1))
    ∷ ("s1", (server, 2, 1))
    ∷ ("c0", (client, 3, 0))
    ∷ ("c2", (client, 3, 2))
    ∷ []

init_names-placed_example :
    (names : Names) × (current : List (Option String)) × (init_names client five_members
      ≡ some (names, current))
    × IsGroup (after_all [] five_members) client (some 3) (some current)
    × ((ρ : DistRole)
        → IsGroup
            (after_all [] five_members)
            ρ
            (size_of (after_all [] five_members) ρ)
            (lookup names ρ))
init_names-placed_example = init_names-placed client five_members 3 refl refl

init_names-raises_example :
    init_names client (("c0", (client, 2, 0)) ∷ ("c1", (client, 3, 1)) ∷ []) ≡ none
init_names-raises_example =
    init_names-raises client (("c0", (client, 2, 0)) ∷ ("c1", (client, 3, 1)) ∷ []) refl

-- Two callees are in the pool, and both workers report the id 2.
abbrev two_callees : Callees ℕ ℕ
two_callees = record { callee_id = 2; callee_pool = (0, λ n. n) ∷ (1, λ n. n + 1) ∷ [] }

two_callees-IsPool : IsPool two_callees
two_callees-IsPool zero h = absurd (omega (arith, h))
two_callees-IsPool (suc zero) h = absurd (omega (arith, h))
two_callees-IsPool (suc (suc i)) h =
    rw
      (
        ==_ne 0 (suc (suc i)) (λ e. absurd (omega (arith, e))),
        ==_ne 1 (suc (suc i)) (λ e. absurd (omega (arith, e))),
      )
      refl

abbrev both_report : ℕ → CalleeIds
both_report i = ("w0", (worker, i)) ∷ ("w1", (worker, i)) ∷ []

both_same : all_same worker 2 (both_report 2) ≡ true
unfolding all_same
both_same = refl

rpc_register-calls_example :
    (after : Callees ℕ ℕ) × (rpc_register worker both_report two_callees (λ n. n * 10)
      ≡ (after, some 2))
    × ((args : ℕ) → rpc_call two_callees 2 args ≡ none)
    × ((args : ℕ) → rpc_call after 2 args ≡ some (args * 10))
    × ((i : ℕ) (args : ℕ) → i ≢ 2 → rpc_call after i args ≡ rpc_call two_callees i args)
    × IsPool after
rpc_register-calls_example =
    rpc_register-calls worker both_report two_callees (λ n. n * 10) two_callees-IsPool both_same
