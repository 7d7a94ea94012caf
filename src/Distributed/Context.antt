-- ===== src/Distributed/Context.antt =====
-- graphlearn_torch/python/distributed/dist_context.py: the roles and ranks of the processes.
use graphlearn_for_pytorch.Prelude.{
  ℕ, ◌+◌, ◌-◌, ◌≤◌, ◌<◌, ◌≡◌, ◌↔◌, ◌⊎◌, inl, inr, refl, ap, ◌&&◌, Option, none, some, arith, ltb,
  leb, ◌>>◌, assert,
}
use graphlearn_for_pytorch.Typing.{String}

pub data DistRole : Type 0 where
  worker server client : DistRole

pub record DistContext : Type 0 where
  pub role : DistRole
  pub group_name : String
  pub world_size : ℕ
  pub rank : ℕ
  pub global_world_size : ℕ
  pub global_rank : ℕ

-- The assertions of `__init__`.
unfoldable pub new_context : DistContext → Option DistContext
new_context c = do
  assert (ltb 0 c.world_size && ltb c.rank c.world_size)
  assert (ltb 0 c.global_world_size && ltb c.global_rank c.global_world_size)
  assert (leb c.world_size c.global_world_size)
  some c

abbrev role_num_servers : DistRole → ℕ → ℕ → ℕ
role_num_servers server world_size global_world_size = world_size
role_num_servers client world_size global_world_size = global_world_size - world_size
role_num_servers worker world_size global_world_size = 0

unfoldable pub num_servers : DistContext → ℕ
num_servers c = role_num_servers c.role c.world_size c.global_world_size

abbrev role_num_clients : DistRole → ℕ → ℕ → ℕ
role_num_clients client world_size global_world_size = world_size
role_num_clients server world_size global_world_size = global_world_size - world_size
role_num_clients worker world_size global_world_size = 0

unfoldable pub num_clients : DistContext → ℕ
num_clients c = role_num_clients c.role c.world_size c.global_world_size

-- `group_name if group_name is not None else …`
abbrev name_or : Option String → String → String
name_or none default = default
name_or (some name) default = name

unfoldable pub set_worker_context : ℕ → ℕ → Option String → Option DistContext
unfolding new_context
set_worker_context world_size rank group_name = new_context (record {
  role = worker;
  group_name = name_or group_name "_default_worker";
  world_size = world_size;
  rank = rank;
  global_world_size = world_size;
  global_rank = rank;
})

abbrev server_context : ℕ → ℕ → ℕ → Option String → DistContext
server_context num_servers num_clients server_rank server_group_name = record {
  role = server;
  group_name = name_or server_group_name "_default_server";
  world_size = num_servers;
  rank = server_rank;
  global_world_size = num_servers + num_clients;
  global_rank = server_rank;
}

unfoldable pub set_server_context : ℕ → ℕ → ℕ → Option String → Option DistContext
unfolding new_context
set_server_context num_servers num_clients server_rank server_group_name =
    assert (ltb 0 num_servers && ltb 0 num_clients)
    >> new_context (server_context num_servers num_clients server_rank server_group_name)

abbrev client_context : ℕ → ℕ → ℕ → Option String → DistContext
client_context num_servers num_clients client_rank client_group_name = record {
  role = client;
  group_name = name_or client_group_name "_default_client";
  world_size = num_clients;
  rank = client_rank;
  global_world_size = num_servers + num_clients;
  global_rank = num_servers + client_rank;
}

unfoldable pub set_client_context : ℕ → ℕ → ℕ → Option String → Option DistContext
unfolding new_context
set_client_context num_servers num_clients client_rank client_group_name =
    assert (ltb 0 num_servers && ltb 0 num_clients)
    >> new_context (client_context num_servers num_clients client_rank client_group_name)

server_set :
    (s c r : ℕ) (name : Option String)
    → 0 < s
    → 0 < c
    → r < s
    → set_server_context s c r name ≡ some (server_context s c r name)
unfolding set_server_context
server_set s c r name hs hc hr = ground arith

server_unset :
    (s c r : ℕ) (name : Option String)
    → (s ≡ 0) ⊎ ((c ≡ 0) ⊎ (s ≤ r))
    → set_server_context s c r name ≡ none
unfolding set_server_context
server_unset s c r name h = ground arith

server_inv :
    (s c r : ℕ) (name : Option String) (ctx : DistContext)
    → set_server_context s c r name ≡ some ctx
    → (0 < s) × (0 < c) × (r < s) × (server_context s c r name ≡ ctx)
unfolding set_server_context
server_inv s c r name ctx h = ground arith

client_set :
    (s c r : ℕ) (name : Option String)
    → 0 < s
    → 0 < c
    → r < c
    → set_client_context s c r name ≡ some (client_context s c r name)
unfolding set_client_context
client_set s c r name hs hc hr = ground arith

client_unset :
    (s c r : ℕ) (name : Option String)
    → (s ≡ 0) ⊎ ((c ≡ 0) ⊎ (c ≤ r))
    → set_client_context s c r name ≡ none
unfolding set_client_context
client_unset s c r name h = ground arith

client_inv :
    (s c r : ℕ) (name : Option String) (ctx : DistContext)
    → set_client_context s c r name ≡ some ctx
    → (0 < s) × (0 < c) × (r < c) × (client_context s c r name ≡ ctx)
unfolding set_client_context
client_inv s c r name ctx h = ground arith

lt_or : (s g : ℕ) → (g < s) ⊎ (s ≤ g)
lt_or s g = omega arith

-- With some servers and some clients, every global rank below their number is that of a context
-- that can be set, a server's or a client's, and that reports the numbers of both.
pub set_context-rank_owner :
    (s c g : ℕ) (name : Option String)
    → 0 < s
    → 0 < c
    → g < s + c
    → (ctx : DistContext) × (ctx.global_rank ≡ g)
      × (ctx.rank < ctx.world_size)
      × (num_servers ctx ≡ s)
      × (num_clients ctx ≡ c)
      × ((set_server_context s c g name ≡ some ctx)
          ⊎ ((r : ℕ) × (set_client_context s c r name ≡ some ctx)))
unfolding num_servers num_clients
set_context-rank_owner s c g name hs hc h = elim (lt_or s g) [
  | inl below ↦ (
    server_context s c g name,
    refl,
    below,
    refl,
    omega arith,
    inl (server_set s c g name hs hc below),
  )
  | inr above ↦ (
    client_context s c (g - s) name,
    omega arith,
    omega arith,
    omega arith,
    refl,
    inr (g - s, client_set s c (g - s) name hs hc (omega arith)),
  )
]

-- The context of a server and that of a client have different global ranks, the server's being
-- the smaller, and the client's is below the number of both.
pub set_context-ranks_differ :
    (s c q r : ℕ) (name : Option String) (a b : DistContext)
    → set_server_context s c q name ≡ some a
    → set_client_context s c r name ≡ some b
    → (a.global_rank < b.global_rank)
      × (b.global_rank < b.global_world_size)
      × (a.global_world_size ≡ b.global_world_size)
set_context-ranks_differ s c q r name a b ha hb =
    let (_, _, hq, ea) = server_inv s c q name a ha in
    let (_, _, hr, eb) = client_inv s c r name b hb in
    (
      omega (arith, ap (λ x. x.global_rank) ea, ap (λ x. x.global_rank) eb),
      omega (arith, ap (λ x. x.global_rank) eb, ap (λ x. x.global_world_size) eb),
      omega (arith, ap (λ x. x.global_world_size) ea, ap (λ x. x.global_world_size) eb),
    )

-- Setting a context fails exactly if there is no server, no client, or the rank is too large for
-- the group.
pub set_context-fails :
    (s c r : ℕ) (name : Option String)
    → ((set_server_context s c r name ≡ none) ↔ ((s ≡ 0) ⊎ ((c ≡ 0) ⊎ (s ≤ r))))
      × ((set_client_context s c r name ≡ none) ↔ ((s ≡ 0) ⊎ ((c ≡ 0) ⊎ (c ≤ r))))
unfolding set_server_context set_client_context
set_context-fails s c r name =
    ((λ h. ground arith, server_unset s c r name), (λ h. ground arith, client_unset s c r name))
