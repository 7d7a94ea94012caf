-- ===== src/Distributed/Rpc/Gather.antt =====
-- `all_gather` of graphlearn_torch/python/distributed/rpc.py: the workers of a group send their
-- objects to the leader, which sends all of them to the followers. A worker is known by the place
-- of its name among the sorted names, so that the leader is worker 0. The calls of one process
-- follow each other, and no request is lost or times out.
use graphlearn_for_pytorch.Prelude.{
  ℕ, zero, suc, ◌+◌, ◌-◌, ◌<◌, ◌≡◌, Bool, true, false, not, ◌&&◌, Option, none, some, List, [], ◌∷◌,
  ◌==◌, ltb, if◌then◌else◌, ◌>>◌, assert, Dict, lookup, insert, nat_keys, range_from,
}
mod Objects
pub mod Workers
mod Steps
pub mod Agreement
pub mod Delivery

-- `rpc.AllGatherStates`
pub record States (A : Type 0) : Type 0 where
  pub gathered_objects : Dict ℕ A
  pub proceed_signal : Bool

abbrev pub no_states : {A : Type 0} → States A
no_states = record { gathered_objects = []; proceed_signal = false }

abbrev pub is_some : {A : Type 0} → Option A → Bool
is_some none = false
is_some (some a) = true

-- `_rpc_current_group_worker_names == set(states.gathered_objects.keys())`, for `n` names.
abbrev pub has_names : {A : Type 0} → ℕ → Dict ℕ A → Bool
has_names zero objects = true
has_names (suc k) objects = is_some (lookup objects k) && has_names k objects

abbrev pub names_only : {A : Type 0} → ℕ → Dict ℕ A → Bool
names_only n [] = true
names_only n ((name, obj) ∷ objects) = ltb name n && names_only n objects

-- `_role_based_gather_to_leader`, on the states of the sequence id.
unfoldable pub gather_to_leader : {A : Type 0} → ℕ → ℕ → A → States A → Option (States A)
gather_to_leader n worker_name obj states = do
  assert (ltb worker_name n)
  assert (not (is_some (lookup states.gathered_objects worker_name)))
  let objects = insert states.gathered_objects worker_name obj
  some (record {
    gathered_objects = objects;
    proceed_signal =
        if names_only n objects && has_names n objects then true else states.proceed_signal;
  })

-- `_role_based_broadcast_to_followers`
unfoldable pub broadcast_to_follower : {A : Type 0} → Dict ℕ A → States A → Option (States A)
broadcast_to_follower objects_map states =
    assert (not states.proceed_signal)
    >> some (record { gathered_objects = objects_map; proceed_signal = true })

-- Where a worker stands in its latest call, of the sequence id: before its first call, before its
-- object is with the leader, before `proceed_signal.wait()` returns, as the leader with objects
-- under way to some followers, and after the call.
pub data Phase (A : Type 0) : Type 0 where
  idle : Phase A
  sending : (sequence_id : ℕ) → Phase A
  waiting : (sequence_id : ℕ) → Phase A
  broadcasting : (sequence_id : ℕ) (objects : Dict ℕ A) (followers : List ℕ) → Phase A
  returned : (sequence_id : ℕ) (objects : Dict ℕ A) → Phase A

-- The next sequence id, and the states of each.
pub record Worker (A : Type 0) : Type 0 where
  pub sequence_id : ℕ
  pub states : ℕ → States A
  pub phase : Phase A

abbrev pub Group : Type 0 → Type 0
Group A = ℕ → Worker A

abbrev pub no_calls : {A : Type 0} → Group A
no_calls i = record { sequence_id = 0; states = λ s. no_states; phase = idle }

abbrev pub on : {A : Type 0} → Group A → ℕ → (Worker A → Worker A) → Group A
on group i change j = if i == j then change (group j) else group j

abbrev pub goes_to : {A : Type 0} → Phase A → Worker A → Worker A
goes_to phase w = record w { phase = phase }

abbrev pub put_states : {A : Type 0} → ℕ → States A → Worker A → Worker A
put_states s states w = record w { states = λ t. if s == t then states else w.states t }

-- The next sequence id is taken and counted up under the lock.
abbrev pub next_call : {A : Type 0} → Worker A → Worker A
next_call w = record w { sequence_id = w.sequence_id + 1; phase = sending w.sequence_id }

abbrev pub is_free : {A : Type 0} → Phase A → Bool
is_free idle = true
is_free (sending s) = false
is_free (waiting s) = false
is_free (broadcasting s objects followers) = false
is_free (returned s objects) = true

abbrev pub is_in : ℕ → List ℕ → Bool
is_in f [] = false
is_in f (g ∷ gs) = if f == g then true else is_in f gs

abbrev pub without : ℕ → List ℕ → List ℕ
without f [] = []
without f (g ∷ gs) = if f == g then without f gs else g ∷ without f gs

-- A group of `n` workers, where worker `i` passes `obj i s` to its call of sequence id `s`.
module _ {A : Type 0} (n : ℕ) (obj : ℕ → ℕ → A) where
  -- A step of a worker. The requests to the followers are answered in any order.
  pub data Step : Group A → Group A → Type 0 where
    calls :
        (group : Group A) (i : ℕ)
        → i < n
        → is_free (group i).phase ≡ true
        → Step group (on group i next_call)
    gathers :
        (group : Group A) (i s : ℕ) (states : States A)
        → i < n
        → (group i).phase ≡ sending s
        → gather_to_leader n i (obj i s) ((group 0).states s) ≡ some states
        → Step group (on (on group 0 (put_states s states)) i (goes_to (waiting s)))
    follower_returns :
        (group : Group A) (i s : ℕ)
        → 0 < i
        → i < n
        → (group i).phase ≡ waiting s
        → ((group i).states s).proceed_signal ≡ true
        → Step group (on group i (goes_to (returned s ((group i).states s).gathered_objects)))
    leader_proceeds :
        (group : Group A) (s : ℕ)
        → (group 0).phase ≡ waiting s
        → ((group 0).states s).proceed_signal ≡ true
        → Step group (
            on group 0 (
              goes_to
                (broadcasting s ((group 0).states s).gathered_objects (range_from 1 (n - 1)))))
    broadcasts :
        (group : Group A) (s f : ℕ) (objects : Dict ℕ A) (followers : List ℕ) (states : States A)
        → (group 0).phase ≡ broadcasting s objects followers
        → is_in f followers ≡ true
        → broadcast_to_follower objects ((group f).states s) ≡ some states
        → Step group (
            on
              (on group f (put_states s states))
              0
              (goes_to (broadcasting s objects (without f followers))))
    leader_returns :
        (group : Group A) (s : ℕ) (objects : Dict ℕ A)
        → (group 0).phase ≡ broadcasting s objects []
        → Step group (on group 0 (goes_to (returned s ((group 0).states s).gathered_objects)))

  pub data Reachable : Group A → Type 0 where
    at_first : Reachable no_calls
    later : {group next : Group A} → Reachable group → Step group next → Reachable next
