-- ===== src/Distributed/Rpc/Gather/Steps.antt =====
-- Every step of a group keeps its workers right.
use mathlib.Core.Path.{subst}
use graphlearn_for_pytorch.Prelude.{
  ℕ, ◌+◌, ◌-◌, ◌<◌, ◌≤◌, ◌≡◌, inl, inr, refl, ap, sym, ◌∙◌, true, some, List, [], ◌==◌, ==_refl,
  Dict, nat_keys, range_from, arith, Bool-cases,
}
use graphlearn_for_pytorch.Distributed.Rpc.Gather.{
  States, gather_to_leader, broadcast_to_follower, Phase, idle, sending, waiting, broadcasting,
  returned, Worker, Group, on, goes_to, put_states, next_call, is_free, is_in, without, Step, calls,
  gathers, follower_returns, leader_proceeds, broadcasts, leader_returns,
}
use graphlearn_for_pytorch.Distributed.Rpc.Gather.Objects.{is_in-range_from, is_in-without}
use graphlearn_for_pytorch.Distributed.Rpc.Gather.Workers.{
  sent_calls, StatesOk, WorkerOk, WorkerOk-mono, on_ok, sent-on, phase_at, sent_at, put_states_ok,
  gathered_ok, broadcast_runs,
}

module _ {A : Type 0} (n : ℕ) (obj : ℕ → ℕ → A) where
  abbrev pub AllOk : Group A → Type 0
  AllOk group = (j : ℕ) → WorkerOk n obj (λ k. sent_calls (group k)) (group j)

  sent_free : (w : Worker A) → is_free w.phase ≡ true → sent_calls w ≤ sent_calls (next_call w)
  sent_free w free = by_phase w.phase refl free
    where
      by_phase : (p : Phase A) → w.phase ≡ p → is_free p ≡ true → sent_calls w ≤ w.sequence_id
      by_phase idle e h = omega (arith, sent_at n obj w idle e)
      by_phase (sending s) e h = absurd cc
      by_phase (waiting s) e h = absurd cc
      by_phase (broadcasting s objects fs) e h = absurd cc
      by_phase (returned s objects) e h = omega (arith, sent_at n obj w (returned s objects) e)

  changed_at :
      (group : Group A) (i : ℕ) (change : Worker A → Worker A)
      → sent_calls (change (group i)) ≤ sent_calls (on group i change i)
  changed_at group i change = rw (==_refl i) (omega arith)

  -- A change of one worker that takes back no object keeps all workers right.
  change_ok :
      (group : Group A) (i : ℕ) (change : Worker A → Worker A)
      → AllOk group
      → sent_calls (group i) ≤ sent_calls (change (group i))
      → ((sent : ℕ → ℕ)
          → sent_calls (change (group i)) ≤ sent i
          → ((j : ℕ) → WorkerOk n obj sent (group j))
          → WorkerOk n obj sent (change (group i)))
      → AllOk (on group i change)
  change_ok group i change ok le keeps =
      let sent' : ℕ → ℕ = λ k. sent_calls (on group i change k) in
      let all : (j : ℕ) → WorkerOk n obj sent' (group j) = λ j.
        WorkerOk-mono n obj (λ k. sent_calls (group k)) sent' (group j)
          (sent-on n obj group i change le) (ok j) in
      on_ok n obj sent' group i change all (λ w. keeps sent' (changed_at group i change) all)

  -- Storing states leaves a worker's call and its sequence id.
  pub kept_call :
      (group : Group A) (f s : ℕ) (states : States A) (i : ℕ)
      → ((on group f (put_states s states) i).phase ≡ (group i).phase)
        × ((on group f (put_states s states) i).sequence_id ≡ (group i).sequence_id)
  kept_call group f s states i = elim (Bool-cases (f == i)) [
    | inl e ↦ rw e (refl, refl)
    | inr e ↦ rw e (refl, refl)
  ]

  gathers_ok :
      (group : Group A) (i s : ℕ) (states : States A)
      → i < n
      → (group i).phase ≡ sending s
      → gather_to_leader n i (obj i s) ((group 0).states s) ≡ some states
      → AllOk group
      → AllOk (on (on group 0 (put_states s states)) i (goes_to (waiting s)))
  gathers_ok group i s states lt at run ok =
      let group' : Group A = on group 0 (put_states s states) in
      let group'' : Group A = on group' i (goes_to (waiting s)) in
      let sent : ℕ → ℕ = λ k. sent_calls (group'' k) in
      let (phase', seq') = kept_call group 0 s states i in
      let at' : (group' i).phase ≡ sending s = phase' ∙ at in
      let seq : (group i).sequence_id ≡ s + 1 =
        phase_at n obj (λ k. sent_calls (group k)) (group i) (sending s) (ok i) at in
      let first : (j : ℕ) → sent_calls (group j) ≤ sent_calls (group' j) =
        sent-on n obj group 0 (put_states s states) (omega arith) in
      let second : (j : ℕ) → sent_calls (group' j) ≤ sent_calls (group'' j) =
        sent-on n obj group' i (goes_to (waiting s))
          (omega (arith, sent_at n obj (group' i) (sending s) at', seq, seq')) in
      let all : (j : ℕ) → WorkerOk n obj sent (group j) = λ j.
        WorkerOk-mono n obj (λ k. sent_calls (group k)) sent (group j)
          (λ k. omega (arith, first k, second k)) (ok j) in
      let before : s < sent i =
        omega (arith, seq, seq', changed_at group' i (goes_to (waiting s))) in
      let (good, stays) =
        gathered_ok n obj sent s i ((group 0).states s) states lt before ((all 0).0 s) run in
      on_ok n obj sent group' i (goes_to (waiting s))
        (on_ok n obj sent group 0 (put_states s states) all
          (λ w. put_states_ok n obj sent (group 0) s states w good stays))
        (λ w. (w.0, phase_at n obj sent (group' i) (sending s) w at'))

  broadcasts_ok :
      (group : Group A) (s f : ℕ) (objects : Dict ℕ A) (followers : List ℕ) (states : States A)
      → (group 0).phase ≡ broadcasting s objects followers
      → is_in f followers ≡ true
      → broadcast_to_follower objects ((group f).states s) ≡ some states
      → AllOk group
      → AllOk (
          on
            (on group f (put_states s states))
            0
            (goes_to (broadcasting s objects (without f followers))))
  broadcasts_ok group s f objects followers states at member run ok =
      let group' : Group A = on group f (put_states s states) in
      let at' : (group' 0).phase ≡ broadcasting s objects followers =
        (kept_call group f s states 0).0 ∙ at in
      let new = broadcast_runs n obj objects ((group f).states s) states run in
      change_ok group' 0 (goes_to (broadcasting s objects (without f followers)))
        (change_ok group f (put_states s states) ok (omega arith) (λ sent le w.
          let (e, right, full, set, within) =
            phase_at n obj sent (group 0) (broadcasting s objects followers) (w 0) at in
          put_states_ok n obj sent (group f) s states (w f)
            (subst (StatesOk n obj sent s) new (right, λ h. full))
            (λ h. ap (λ (st : States A). st.proceed_signal) (sym new))))
        (omega (arith, sent_at n obj (group' 0) (broadcasting s objects followers) at'))
        (λ sent le w.
          let (e, right, full, set, within) =
            phase_at n obj sent (group' 0) (broadcasting s objects followers) (w 0) at' in
          (
            (w 0).0,
            (e, right, full, set, λ g in_rest. within g (is_in-without g f followers in_rest)),
          ))

  pub Step-AllOk : {group next : Group A} → Step n obj group next → AllOk group → AllOk next
  Step-AllOk (calls group i lt free) ok =
      change_ok group i next_call ok (sent_free (group i) free) (λ sent le w. ((w i).0, refl))
  Step-AllOk (gathers group i s states lt at run) ok = gathers_ok group i s states lt at run ok
  Step-AllOk (follower_returns group i s pos lt at set) ok =
      let states = ((group i).states s) in
      change_ok group i (goes_to (returned s states.gathered_objects)) ok
        (omega (arith, sent_at n obj (group i) (waiting s) at))
        (λ sent le w. (
          (w i).0,
          (phase_at n obj sent (group i) (waiting s) (w i) at, ((w i).0 s).0, ((w i).0 s).1 set),
        ))
  Step-AllOk (leader_proceeds group s at set) ok =
      let objects = ((group 0).states s).gathered_objects in
      change_ok group 0 (goes_to (broadcasting s objects (range_from 1 (n - 1)))) ok
        (omega (arith, sent_at n obj (group 0) (waiting s) at))
        (λ sent le w. (
          (w 0).0,
          (
            phase_at n obj sent (group 0) (waiting s) (w 0) at,
            ((w 0).0 s).0,
            ((w 0).0 s).1 set,
            set,
            λ f member.
                let (least, most) = is_in-range_from f 1 (n - 1) member in
                (least, omega (arith, least, most)),
          ),
        ))
  Step-AllOk (broadcasts group s f objects followers states at member run) ok =
      broadcasts_ok group s f objects followers states at member run ok
  Step-AllOk (leader_returns group s objects at) ok =
      let states = ((group 0).states s) in
      change_ok group 0 (goes_to (returned s states.gathered_objects)) ok
        (omega (arith, sent_at n obj (group 0) (broadcasting s objects []) at))
        (λ sent le w.
          let (e, right, full, set, within) =
            phase_at n obj sent (group 0) (broadcasting s objects []) (w 0) at in
          ((w 0).0, (e, ((w 0).0 s).0, ((w 0).0 s).1 set)))
