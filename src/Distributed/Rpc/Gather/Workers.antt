-- ===== src/Distributed/Rpc/Gather/Workers.antt =====
-- What each worker of a group keeps true of its states and its call.
use mathlib.Core.Path.{subst}
use graphlearn_for_pytorch.Prelude.{
  ℕ, ◌+◌, ◌<◌, ◌≤◌, ◌≡◌, inl, inr, refl, ap, sym, ◌∙◌, true, not, ◌&&◌, none, some, ◌==◌, ==_iff,
  ltb, if◌then◌else◌, assert, Dict, lookup, insert, nat_keys, lookup-insert, arith, Bool-cases,
  some_inj, >>=-eq-some,
}
use graphlearn_for_pytorch.Distributed.Rpc.Sync.{and_true}
use graphlearn_for_pytorch.Distributed.Rpc.Gather.{
  States, is_some, has_names, names_only, gather_to_leader, broadcast_to_follower, Phase, idle,
  sending, waiting, broadcasting, returned, Worker, Group, on, goes_to, put_states, is_in,
}
use graphlearn_for_pytorch.Distributed.Rpc.Gather.Objects.{assert-true, not_some, has_names_lem}

-- How many calls of a worker have their object with the leader.
abbrev pub sent_calls : {A : Type 0} → Worker A → ℕ
sent_calls w = elim w.phase [
  | sending s ↦ s
  | idle ↦ w.sequence_id
  | waiting s ↦ w.sequence_id
  | broadcasting s objects followers ↦ w.sequence_id
  | returned s objects ↦ w.sequence_id
]

module _ {A : Type 0} (n : ℕ) (obj : ℕ → ℕ → A) where
  -- Objects of the call `s`: those of workers who have sent theirs, where `sent` says how many calls of each worker have.
  abbrev pub Right : (sent : ℕ → ℕ) → ℕ → Dict ℕ A → Type 0
  Right sent s objects =
      (j : ℕ) (v : A) → lookup objects j ≡ some v → (j < n) × (v ≡ obj j s) × (s < sent j)

  abbrev pub Complete : Dict ℕ A → Type 0
  Complete objects = (j : ℕ) → j < n → (v : A) × (lookup objects j ≡ some v)

  -- The states of a worker: a signal is set on complete objects only.
  abbrev pub StatesOk : (ℕ → ℕ) → ℕ → States A → Type 0
  StatesOk sent s states =
      Right sent s states.gathered_objects
      × (states.proceed_signal ≡ true → Complete states.gathered_objects)

  abbrev pub PhaseOk : (ℕ → ℕ) → ℕ → (ℕ → States A) → Phase A → Type 0
  PhaseOk sent seq states idle = Unit
  PhaseOk sent seq states (sending s) = seq ≡ s + 1
  PhaseOk sent seq states (waiting s) = seq ≡ s + 1
  PhaseOk sent seq states (broadcasting s objects followers) =
      (seq ≡ s + 1)
      × Right sent s objects
      × Complete objects
      × ((states s).proceed_signal ≡ true)
      × ((f : ℕ) → is_in f followers ≡ true → (0 < f) × (f < n))
  PhaseOk sent seq states (returned s objects) =
      (seq ≡ s + 1) × Right sent s objects × Complete objects

  abbrev pub WorkerOk : (ℕ → ℕ) → Worker A → Type 0
  WorkerOk sent w =
      ((s : ℕ) → StatesOk sent s (w.states s)) × PhaseOk sent w.sequence_id w.states w.phase

  pub Right-mono :
      (sent sent' : ℕ → ℕ) (s : ℕ) (objects : Dict ℕ A)
      → ((j : ℕ) → sent j ≤ sent' j)
      → Right sent s objects
      → Right sent' s objects
  Right-mono sent sent' s objects le right j v h =
      let (lt, e, before) = right j v h in (lt, e, omega (arith, before, le j))

  pub PhaseOk-mono :
      (sent sent' : ℕ → ℕ) (seq : ℕ) (states : ℕ → States A) (phase : Phase A)
      → ((j : ℕ) → sent j ≤ sent' j)
      → PhaseOk sent seq states phase
      → PhaseOk sent' seq states phase
  PhaseOk-mono sent sent' seq states idle le ok = tt
  PhaseOk-mono sent sent' seq states (sending s) le ok = ok
  PhaseOk-mono sent sent' seq states (waiting s) le ok = ok
  PhaseOk-mono sent sent' seq states (broadcasting s objects fs) le (e, right, full, set, within) =
      (e, Right-mono sent sent' s objects le right, full, set, within)
  PhaseOk-mono sent sent' seq states (returned s objects) le (e, right, rest) =
      (e, Right-mono sent sent' s objects le right, rest)

  pub WorkerOk-mono :
      (sent sent' : ℕ → ℕ) (w : Worker A)
      → ((j : ℕ) → sent j ≤ sent' j)
      → WorkerOk sent w
      → WorkerOk sent' w
  WorkerOk-mono sent sent' w le (states, phase) = (
    λ s. (Right-mono sent sent' s (w.states s).gathered_objects le (states s).0, (states s).1),
    PhaseOk-mono sent sent' w.sequence_id w.states w.phase le phase,
  )

  -- A change of one worker.
  pub on_ok :
      (sent : ℕ → ℕ) (group : Group A) (i : ℕ) (change : Worker A → Worker A)
      → ((j : ℕ) → WorkerOk sent (group j))
      → (WorkerOk sent (group i) → WorkerOk sent (change (group i)))
      → (j : ℕ) → WorkerOk sent (on group i change j)
  on_ok sent group i change ok keeps j = elim (Bool-cases (i == j)) [
    | inl e ↦ rw e (subst (λ k. WorkerOk sent (change (group k))) ((==_iff i j).0 e) (keeps (ok i)))
    | inr e ↦ rw e (ok j)
  ]

  pub sent-on :
      (group : Group A) (i : ℕ) (change : Worker A → Worker A)
      → sent_calls (group i) ≤ sent_calls (change (group i))
      → (j : ℕ) → sent_calls (group j) ≤ sent_calls (on group i change j)
  sent-on group i change le j = elim (Bool-cases (i == j)) [
    | inl e ↦
        rw e
          (subst (λ k. sent_calls (group k) ≤ sent_calls (change (group k))) ((==_iff i j).0 e) le)
    | inr e ↦ rw e (omega arith)
  ]

  pub phase_at :
      (sent : ℕ → ℕ) (w : Worker A) (phase : Phase A)
      → WorkerOk sent w
      → w.phase ≡ phase
      → PhaseOk sent w.sequence_id w.states phase
  phase_at sent w phase ok e = subst (PhaseOk sent w.sequence_id w.states) e ok.1

  pub sent_at :
      (w : Worker A) (phase : Phase A)
      → w.phase ≡ phase
      → sent_calls w ≡ sent_calls (goes_to phase w)
  sent_at w phase e = ap (λ p. sent_calls (goes_to p w)) e

  pub put_states_ok :
      (sent : ℕ → ℕ) (w : Worker A) (s : ℕ) (states : States A)
      → WorkerOk sent w
      → StatesOk sent s states
      → ((w.states s).proceed_signal ≡ true → states.proceed_signal ≡ true)
      → WorkerOk sent (put_states s states w)
  put_states_ok sent w s states ok new stays = (at, phase w.phase ok.1)
    where
      at : (t : ℕ) → StatesOk sent t (if s == t then states else w.states t)
      at t = elim (Bool-cases (s == t)) [
        | inl e ↦ rw e (subst (λ u. StatesOk sent u states) ((==_iff s t).0 e) new)
        | inr e ↦ rw e (ok.0 t)
      ]

      kept :
          (t : ℕ)
          → (w.states t).proceed_signal ≡ true
          → (if s == t then states else w.states t).proceed_signal ≡ true
      kept t set = elim (Bool-cases (s == t)) [
        | inl e ↦
            rw e
              (stays (subst (λ u. (w.states u).proceed_signal ≡ true) (sym ((==_iff s t).0 e)) set))
        | inr e ↦ rw e set
      ]

      phase :
          (p : Phase A)
          → PhaseOk sent w.sequence_id w.states p
          → PhaseOk sent w.sequence_id (λ t. if s == t then states else w.states t) p
      phase idle h = tt
      phase (sending t) h = h
      phase (waiting t) h = h
      phase (broadcasting t objects fs) (e, right, full, set, within) =
          (e, right, full, kept t set, within)
      phase (returned t objects) h = h

  pub inserted-Right :
      (sent : ℕ → ℕ) (s i : ℕ) (objects : Dict ℕ A)
      → i < n
      → s < sent i
      → Right sent s objects
      → Right sent s (insert objects i (obj i s))
  inserted-Right sent s i objects lt before right j v h = elim (Bool-cases (i == j)) [
    | inl e ↦
        let same : i ≡ j = (==_iff i j).0 e in
        (
          subst (λ k. k < n) same lt,
          some_inj
              (sym h ∙ lookup-insert objects i (obj i s) j ∙ rw e (ap (λ k. some (obj k s)) same)),
          subst (λ k. s < sent k) same before,
        )
    | inr e ↦ right j v (sym (lookup-insert objects i (obj i s) j ∙ rw e refl) ∙ h)
  ]

  pub still-Complete :
      (objects : Dict ℕ A) (i : ℕ) (v : A) → Complete objects → Complete (insert objects i v)
  still-Complete objects i v full j lt = elim (Bool-cases (i == j)) [
    | inl e ↦ (v, lookup-insert objects i v j ∙ rw e refl)
    | inr e ↦ let (u, at) = full j lt in (u, lookup-insert objects i v j ∙ rw e at)
  ]

  -- The states that the leader stores when worker `i` reports.
  abbrev pub stored : ℕ → A → States A → States A
  stored i v states = record {
    gathered_objects = insert states.gathered_objects i v;
    proceed_signal =
        if names_only n (insert states.gathered_objects i v)
          && has_names n (insert states.gathered_objects i v)
        then true
        else states.proceed_signal;
  }

  pub gather_runs :
      (i : ℕ) (v : A) (states next : States A)
      → gather_to_leader n i v states ≡ some next
      → (lookup states.gathered_objects i ≡ none) × (stored i v states ≡ next)
  unfolding gather_to_leader
  gather_runs i v states next run =
      let (u, known, run') = >>=-eq-some (assert (ltb i n)) _ run in
      let (u', new, run'') =
        >>=-eq-some (assert (not (is_some (lookup states.gathered_objects i)))) _ run' in
      (
        not_some (lookup states.gathered_objects i)
            (assert-true (not (is_some (lookup states.gathered_objects i))) new),
        some_inj run'',
      )

  pub stored_ok :
      (sent : ℕ → ℕ) (s i : ℕ) (states : States A)
      → i < n
      → s < sent i
      → StatesOk sent s states
      → StatesOk sent s (stored i (obj i s) states)
  stored_ok sent s i states lt before (right, full) =
      let objects : Dict ℕ A = insert states.gathered_objects i (obj i s) in
      (
        inserted-Right sent s i states.gathered_objects lt before right,
        λ set. elim (Bool-cases (names_only n objects && has_names n objects)) [
          | inl e ↦
              has_names_lem n objects (and_true (names_only n objects) (has_names n objects) e).1
          | inr e ↦
              still-Complete states.gathered_objects i (obj i s)
                (full (subst (λ b. (if b then true else states.proceed_signal) ≡ true) e set))
        ],
      )

  pub stored_stays :
      (i : ℕ) (v : A) (states : States A)
      → states.proceed_signal ≡ true
      → (stored i v states).proceed_signal ≡ true
  stored_stays i v states set =
      elim (Bool-cases (
        names_only n (insert states.gathered_objects i v)
        && has_names n (insert states.gathered_objects i v))) [
          | inl e ↦ rw e refl
          | inr e ↦ rw e set
        ]

  pub gathered_ok :
      (sent : ℕ → ℕ) (s i : ℕ) (states next : States A)
      → i < n
      → s < sent i
      → StatesOk sent s states
      → gather_to_leader n i (obj i s) states ≡ some next
      → StatesOk sent s next × (states.proceed_signal ≡ true → next.proceed_signal ≡ true)
  gathered_ok sent s i states next lt before ok run =
      subst (λ st. StatesOk sent s st × (states.proceed_signal ≡ true → st.proceed_signal ≡ true))
        (gather_runs i (obj i s) states next run).1
        (stored_ok sent s i states lt before ok, stored_stays i (obj i s) states)

  pub broadcast_runs :
      (objects : Dict ℕ A) (states next : States A)
      → broadcast_to_follower objects states ≡ some next
      → ◌≡◌ {A = States A} (record { gathered_objects = objects; proceed_signal = true }) next
  unfolding broadcast_to_follower
  broadcast_runs objects states next run =
      let (u, known, run') = >>=-eq-some (assert (not states.proceed_signal)) _ run in some_inj run'
