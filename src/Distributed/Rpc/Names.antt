-- ===== src/Distributed/Rpc/Names.antt =====
-- The table of worker names that `init_rpc` of graphlearn_torch/python/distributed/rpc.py builds
-- from what `global_all_gather` returns: for each role, the name of the worker of each rank.
use mathlib.Core.Path.{subst}
use graphlearn_for_pytorch.Prelude.{
  ℕ, ◌≤◌, ◌<◌, ◌≡◌, ◌≢◌, ◌↔◌, inl, inr, refl, ap, sym, ◌∙◌, Bool, true, false, ◌&&◌, Option, none,
  some, List, [], ◌∷◌, arith, ◌==◌, ==_iff, ltb, ltb→lt, if◌then◌else◌, length, get_elem?, set, Eq,
  replicate, ◌>>=◌, ◌>>◌, assert, Dict, lookup, insert, lookup-insert, Bool-cases, Option-cases,
  length-set, get_elem?-set_self, get_elem?-set_ne, get_elem?-replicate, length-replicate,
  get_elem?-none, get_elem?-lt,
}
use graphlearn_for_pytorch.Typing.{String}
use graphlearn_for_pytorch.Distributed.Context.{DistRole, worker, server, client}
use graphlearn_for_pytorch.Distributed.Rpc.Sync.{same_role, differ, and_true, not_below}
pub mod Table

pub same_role_iff : (a b : DistRole) → (same_role a b ≡ true) ↔ (a ≡ b)
same_role_iff worker worker = (λ h. refl, λ h. refl)
same_role_iff server server = (λ h. refl, λ h. refl)
same_role_iff client client = (λ h. refl, λ h. refl)
same_role_iff worker server = (λ h. cc, λ h. cc)
same_role_iff worker client = (λ h. cc, λ h. cc)
same_role_iff server worker = (λ h. cc, λ h. cc)
same_role_iff server client = (λ h. cc, λ h. cc)
same_role_iff client worker = (λ h. cc, λ h. cc)
same_role_iff client server = (λ h. cc, λ h. cc)

instance abbrev pub role_keys : Eq DistRole
role_keys = record { beq = same_role; beq_iff = same_role_iff }

-- What a worker reports: its role, the size of its group and its rank there.
abbrev pub Member : Type 0
Member = DistRole × ℕ × ℕ

abbrev pub Names : Type 0
Names = Dict DistRole (List (Option String))

abbrev pub unnamed : Option String → Bool
unnamed none = true
unnamed (some name) = false

-- `_rpc_worker_names.get(role, None)`, or a new list, and the test of its length.
abbrev pub worker_list_for : Option (List (Option String)) → ℕ → Option (List (Option String))
worker_list_for none role_size = some (replicate role_size none)
worker_list_for (some worker_list) role_size =
    assert (length worker_list == role_size) >> some worker_list

unfoldable pub names_loop : List (String × Member) → Names → Option Names
names_loop [] names = some names
names_loop ((worker_name, (role, role_size, role_rank)) ∷ gathered) names = do
  worker_list ← worker_list_for (lookup names role) role_size
  old ← get_elem? worker_list role_rank
  assert (unnamed old)
  names_loop gathered (insert names role (set worker_list role_rank (some worker_name)))

-- `_rpc_worker_names` and `_rpc_current_group_worker_names`, after the gathering.
unfoldable pub init_names : DistRole → Dict String Member → Option (Names × List (Option String))
unfolding names_loop
init_names ctx_role gathered = do
  names ← names_loop gathered []
  current ← lookup names ctx_role
  some (names, current)
