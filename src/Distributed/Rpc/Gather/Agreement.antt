-- ===== src/Distributed/Rpc/Gather/Agreement.antt =====
-- What the calls of `all_gather` return, in every state that the workers can reach.
use graphlearn_for_pytorch.Prelude.{
  ℕ, ◌<◌, ◌≤◌, ◌≡◌, inl, inr, refl, ap, ◌∙◌, none, some, ==_refl, lt→ltb, Dict, lookup, nat_keys,
  lookup-insert, arith, Option-cases,
}
use graphlearn_for_pytorch.Distributed.Rpc.Gather.{
  States, gather_to_leader, sending, returned, Group, Reachable, at_first, later,
}
use graphlearn_for_pytorch.Distributed.Rpc.Gather.Workers.{sent_calls, phase_at, sent_at, stored}
use graphlearn_for_pytorch.Distributed.Rpc.Gather.Steps.{AllOk, Step-AllOk}

module _ {A : Type 0} (n : ℕ) (obj : ℕ → ℕ → A) where
  pub Reachable-AllOk : {group : Group A} → Reachable n obj group → AllOk n obj group
  Reachable-AllOk at_first = λ j. (λ s. (λ i v h. absurd cc, λ h. absurd cc), tt)
  Reachable-AllOk (later before step) = Step-AllOk n obj step (Reachable-AllOk before)

  -- In every state that is reached, once the call `s` of a worker has returned objects, each worker
  -- of the group has sent what it passes to its call `s`, and these are the objects, of no others.
  pub Reachable-agree :
      (group : Group A) (i s : ℕ) (objects : Dict ℕ A)
      → Reachable n obj group
      → (group i).phase ≡ returned s objects
      → ((j : ℕ) → j < n → (lookup objects j ≡ some (obj j s)) × (s < sent_calls (group j)))
        × ((j : ℕ) → n ≤ j → lookup objects j ≡ none)
  Reachable-agree group i s objects reach at =
      let sent : ℕ → ℕ = λ k. sent_calls (group k) in
      let (e, right, full) =
        phase_at n obj sent (group i) (returned s objects) (Reachable-AllOk reach i) at in
      (
        (λ j lt.
            let (v, found) = full j lt in
            let (in_group, same, before) = right j v found in (found ∙ ap some same, before)),
        λ j ge. elim (Option-cases (lookup objects j)) [
          | inl e' ↦ e'
          | inr (v, found) ↦ absurd (omega (arith, ge, (right j v found).0))
        ],
      )

  -- In every state that is reached, the leader accepts the object of a worker that is sending it.
  pub Reachable-accepts :
      (group : Group A) (i s : ℕ)
      → Reachable n obj group
      → i < n
      → (group i).phase ≡ sending s
      → (states : States A) × (gather_to_leader n i (obj i s) ((group 0).states s) ≡ some states)
        × (lookup states.gathered_objects i ≡ some (obj i s))
  unfolding gather_to_leader
  Reachable-accepts group i s reach lt at =
      let objects = ((group 0).states s).gathered_objects in
      let sent : ℕ → ℕ = λ k. sent_calls (group k) in
      let count : sent i ≡ s = sent_at n obj (group i) (sending s) at in
      let fresh : lookup objects i ≡ none = elim (Option-cases (lookup objects i)) [
        | inl e ↦ e
        | inr (v, found) ↦
            let (in_group, same, before) = ((Reachable-AllOk reach 0).0 s).0 i v found in
            absurd (omega (arith, count, before))
      ] in
      (
        stored n obj i (obj i s) ((group 0).states s),
        rw (lt→ltb i n lt, fresh) refl,
        lookup-insert objects i (obj i s) i ∙ rw (==_refl i) refl,
      )
