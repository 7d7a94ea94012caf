-- ===== src/Distributed/Rpc/Register.antt =====
-- `rpc_register` and `_rpc_call` of graphlearn_torch/python/distributed/rpc.py: the callees that a
-- process offers to the workers of its group, by an id on which the group agrees.
use graphlearn_for_pytorch.Prelude.{
  ℕ, ◌+◌, ◌≤◌, ◌≡◌, ◌≢◌, refl, ap, sym, ◌∙◌, Bool, true, ◌&&◌, Option, none, some, [], ◌∷◌, arith,
  ◌==◌, ==_ne, ==_refl, if◌then◌else◌, Dict, lookup, insert, nat_keys, lookup-insert, ◌>>=◌,
}
use graphlearn_for_pytorch.Typing.{String}
use graphlearn_for_pytorch.Distributed.Context.{DistRole}
use graphlearn_for_pytorch.Distributed.Rpc.Sync.{same_role}

-- `_rpc_callee_id` and `_rpc_callee_pool`; a callee is its `call`.
pub record Callees (Args Result : Type 0) : Type 0 where
  pub callee_id : ℕ
  pub callee_pool : Dict ℕ (Args → Result)

-- What the workers of the group report to each other: a role and a callee id.
abbrev pub CalleeIds : Type 0
CalleeIds = Dict String (DistRole × ℕ)

unfoldable pub all_same : DistRole → ℕ → CalleeIds → Bool
all_same current_role callee_id [] = true
all_same current_role callee_id ((name, (role, cid)) ∷ callee_ids) =
    same_role role current_role && (cid == callee_id && all_same current_role callee_id callee_ids)

module _ {Args Result : Type 0} where
  abbrev registered :
      Callees Args Result → Option (Args → Result) → (Args → Result) → Callees Args Result
  registered self (some old) callee = record self { callee_id = self.callee_id + 1 }
  registered self none callee = record {
    callee_id = self.callee_id + 1;
    callee_pool = insert self.callee_pool self.callee_id callee;
  }

  -- The part under the lock: the state, and the id unless it is in the pool already.
  unfoldable pub enter : Callees Args Result → (Args → Result) → Callees Args Result × Option ℕ
  enter self callee =
      let old = lookup self.callee_pool self.callee_id in
      (registered self old callee, elim old [ none ↦ some self.callee_id | some f ↦ none ])

  -- The tests of what the group reports.
  abbrev agreed :
      DistRole → (ℕ → CalleeIds) → Callees Args Result × Option ℕ → Callees Args Result × Option ℕ
  agreed current_role gathered (after, id) =
      (after, id >>= λ i. if all_same current_role i (gathered i) then some i else none)

  -- `gathered` is what `all_gather` returns for the id that this process reports. The callee stays
  -- registered when the ids differ and an error is raised.
  unfoldable pub rpc_register :
      DistRole
      → (ℕ → CalleeIds)
      → Callees Args Result
      → (Args → Result)
      → Callees Args Result × Option ℕ
  unfolding enter all_same
  rpc_register current_role gathered self callee = agreed current_role gathered (enter self callee)

  -- `_rpc_call`: an id that is not in the pool raises.
  unfoldable pub rpc_call : Callees Args Result → ℕ → Args → Option Result
  rpc_call self i args = lookup self.callee_pool i >>= λ callee. some (callee args)

  -- The pool has the ids below the counter, which were given out, and no others.
  abbrev pub IsPool : Callees Args Result → Type 0
  IsPool self = (i : ℕ) → self.callee_id ≤ i → lookup self.callee_pool i ≡ none

  enter_fresh :
      (self : Callees Args Result) (callee : Args → Result)
      → lookup self.callee_pool self.callee_id ≡ none
      → enter self callee ≡ (registered self none callee, some self.callee_id)
  unfolding enter
  enter_fresh self callee fresh = rw fresh refl

  -- In a pool without ids from the counter on, where the group reports the id of this process,
  -- `rpc_register` returns a new id. Calls of it then reach the callee, those of every other id
  -- reach what they reached before, and the pool has no id from its counter on.
  pub rpc_register-calls :
      (current_role : DistRole) (gathered : ℕ → CalleeIds) (self : Callees Args Result)
      (callee : Args → Result)
      → IsPool self
      → all_same current_role self.callee_id (gathered self.callee_id) ≡ true
      → (after : Callees Args Result) × (rpc_register current_role gathered self callee
          ≡ (after, some self.callee_id))
        × ((args : Args) → rpc_call self self.callee_id args ≡ none)
        × ((args : Args) → rpc_call after self.callee_id args ≡ some (callee args))
        × ((i : ℕ) (args : Args)
            → i ≢ self.callee_id
            → rpc_call after i args ≡ rpc_call self i args)
        × IsPool after
  unfolding rpc_register rpc_call
  rpc_register-calls current_role gathered self callee is_pool same =
      let fresh : lookup self.callee_pool self.callee_id ≡ none =
        is_pool self.callee_id (omega arith) in
      let after : Callees Args Result = record {
        callee_id = self.callee_id + 1;
        callee_pool = insert self.callee_pool self.callee_id callee;
      } in
      let at : (i : ℕ)
          → lookup after.callee_pool i
            ≡ (if self.callee_id == i then some callee else lookup self.callee_pool i) =
        lookup-insert self.callee_pool self.callee_id callee in
      (
        after,
        ap (agreed current_role gathered) (enter_fresh self callee fresh) ∙ rw same refl,
        λ args. rw fresh refl,
        λ args. rw (at self.callee_id, ==_refl self.callee_id) refl,
        λ i args ne. rw (at i, ==_ne self.callee_id i (λ e. ne (sym e))) refl,
        λ i le.
            at i
            ∙ rw (==_ne self.callee_id i (λ e. absurd (omega (arith, e, le))))
                (is_pool i (omega (arith, le))),
      )
