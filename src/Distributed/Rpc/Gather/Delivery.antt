-- ===== src/Distributed/Rpc/Gather/Delivery.antt =====
-- The leader of `all_gather` sends the objects of a call to each follower once.
use mathlib.Core.Path.{subst}
use graphlearn_for_pytorch.Prelude.{
  ℕ, ◌-◌, ◌<◌, ◌≡◌, ◌⊎◌, inl, inr, refl, ap, sym, ◌∙◌, true, false, some, List, [], ◌∷◌, ◌==◌,
  ==_iff, ==_ne, if◌then◌else◌, Dict, nat_keys, range_from, arith, Bool-cases,
}
use graphlearn_for_pytorch.Distributed.Rpc.Gather.{
  States, broadcast_to_follower, Phase, idle, sending, waiting, broadcasting, returned, Worker,
  Group, on, goes_to, put_states, next_call, is_free, is_in, without, Step, calls, gathers,
  follower_returns, leader_proceeds, broadcasts, leader_returns, Reachable, at_first, later,
}
use graphlearn_for_pytorch.Distributed.Rpc.Gather.Objects.{is_in-without}
use graphlearn_for_pytorch.Distributed.Rpc.Gather.Workers.{sent_calls, phase_at}
use graphlearn_for_pytorch.Distributed.Rpc.Gather.Steps.{AllOk, kept_call}
use graphlearn_for_pytorch.Distributed.Rpc.Gather.Agreement.{Reachable-AllOk}

is_in_rest : (g f : ℕ) (fs : List ℕ) → is_in g fs ≡ false → is_in g (without f fs) ≡ false
is_in_rest g f fs h = elim (Bool-cases (is_in g (without f fs))) [
  | inl e ↦ let clash : true ≡ false = sym (is_in-without g f fs e) ∙ h in absurd cc
  | inr e ↦ e
]

is_in_removed : (f : ℕ) (fs : List ℕ) → is_in f (without f fs) ≡ false
is_in_removed f [] = refl
is_in_removed f (g ∷ fs) = elim (Bool-cases (f == g)) [
  | inl e ↦ rw e (is_in_removed f fs)
  | inr e ↦ rw (e, e) (is_in_removed f fs)
]

module _ {A : Type 0} where
  -- The leader has sent the objects of the call `s` to the follower `f`.
  abbrev SentTo : Phase A → ℕ → ℕ → ℕ → Type 0
  SentTo idle seq f s = s < seq
  SentTo (sending t) seq f s = s < t
  SentTo (waiting t) seq f s = s < t
  SentTo (broadcasting t objects followers) seq f s =
      (s < t) ⊎ ((s ≡ t) × (is_in f followers ≡ false))
  SentTo (returned t objects) seq f s = s < seq

  abbrev SentBy : Worker A → ℕ → ℕ → Type 0
  SentBy w f s = SentTo w.phase w.sequence_id f s

  -- A follower has a signal only from the leader.
  abbrev AllSent : Group A → Type 0
  AllSent group =
      (f s : ℕ) → 0 < f → ((group f).states s).proceed_signal ≡ true → SentBy (group 0) f s

  sent_by :
      (w : Worker A) (phase : Phase A)
      → w.phase ≡ phase
      → (f s : ℕ) → SentBy w f s
      → SentTo phase w.sequence_id f s
  sent_by w phase e f s h = subst (λ p. SentTo p w.sequence_id f s) e h

  -- A worker goes to another phase, or begins a call: no signal changes.
  moved :
      (group : Group A) (i : ℕ) (change : Worker A → Worker A)
      → ((w : Worker A) (s : ℕ) → (change w).states s ≡ w.states s)
      → (i ≡ 0 → (f s : ℕ) → SentBy (group 0) f s → SentBy (change (group 0)) f s)
      → AllSent group
      → AllSent (on group i change)
  moved group i change same keeps all f s pos set = by_zero (all f s pos (signal set))
    where
      signal :
          ((on group i change f).states s).proceed_signal ≡ true
          → ((group f).states s).proceed_signal ≡ true
      signal set = elim (Bool-cases (i == f)) [
        | inl e ↦
            ap (λ (st : States A). st.proceed_signal) (sym (same (group f) s))
            ∙ subst
                (λ b. ((if b then change (group f) else group f).states s).proceed_signal ≡ true) e
                set
        | inr e ↦
            subst (λ b. ((if b then change (group f) else group f).states s).proceed_signal ≡ true)
              e set
      ]

      by_zero : SentBy (group 0) f s → SentBy (on group i change 0) f s
      by_zero h = elim (Bool-cases (i == 0)) [
        | inl e ↦ rw e (keeps ((==_iff i 0).0 e) f s h)
        | inr e ↦ rw e h
      ]

  stored_at_leader :
      (group : Group A) (s : ℕ) (states : States A)
      → AllSent group
      → AllSent (on group 0 (put_states s states))
  stored_at_leader group s states all f u pos set = all f u pos (
      subst
        (λ b.
          ((if b then put_states s states (group f) else group f).states u).proceed_signal ≡ true)
        (==_ne 0 f (λ e. absurd (omega (arith, e, pos)))) set)

  free_sent : (w : Worker A) (f s : ℕ) → is_free w.phase ≡ true → SentBy w f s → s < w.sequence_id
  free_sent w f s = by_phase w.phase
    where
      by_phase : (p : Phase A) → is_free p ≡ true → SentTo p w.sequence_id f s → s < w.sequence_id
      by_phase idle h sent = sent
      by_phase (sending t) h sent = absurd cc
      by_phase (waiting t) h sent = absurd cc
      by_phase (broadcasting t objects fs) h sent = absurd cc
      by_phase (returned t objects) h sent = sent

  -- A signal after states are stored at `f` for `s` is theirs, or was there before.
  stored_signal :
      (group : Group A) (f s g u : ℕ) (states : States A)
      → ((on group f (put_states s states) g).states u).proceed_signal ≡ true
      → ((f ≡ g) × (s ≡ u)) ⊎ (((group g).states u).proceed_signal ≡ true)
  stored_signal group f s g u states set = elim (Bool-cases (f == g)) [
    | inr e ↦ inr (
        subst
          (λ b.
            ((if b then put_states s states (group g) else group g).states u).proceed_signal ≡ true)
          e set)
    | inl e ↦ elim (Bool-cases (s == u)) [
      | inl e' ↦ inl ((==_iff f g).0 e, (==_iff s u).0 e')
      | inr e' ↦ inr (
          subst (λ b. (if b then states else (group g).states u).proceed_signal ≡ true) e'
            (subst
              (λ b.
                ((if b then put_states s states (group g) else group g).states u).proceed_signal
                ≡ true)
              e set))
    ]
  ]

  broadcasts_sent :
      (group : Group A) (s f : ℕ) (objects : Dict ℕ A) (followers : List ℕ) (states : States A)
      → (group 0).phase ≡ broadcasting s objects followers
      → AllSent group
      → AllSent (
          on
            (on group f (put_states s states))
            0
            (goes_to (broadcasting s objects (without f followers))))
  broadcasts_sent group s f objects followers states at all g u pos set =
      elim (stored_signal group f s g u states signal) [
        | inl (e, e') ↦ inr (
          sym e',
          subst (λ k. is_in k (without f followers) ≡ false) e (is_in_removed f followers),
        )
        | inr before ↦
            elim (sent_by (group 0) (broadcasting s objects followers) at g u
              (all g u pos before)) [
                | inl less ↦ inl less
                | inr (e, gone) ↦ inr (e, is_in_rest g f followers gone)
              ]
      ]
    where
      signal : ((on group f (put_states s states) g).states u).proceed_signal ≡ true
      signal =
          subst
            (λ b.
              ((if b
                  then goes_to (broadcasting s objects (without f followers))
                      (on group f (put_states s states) g)
                  else on group f (put_states s states) g).states
                u).proceed_signal
              ≡ true)
            (==_ne 0 g (λ e. absurd (omega (arith, e, pos)))) set

module _ {A : Type 0} (n : ℕ) (obj : ℕ → ℕ → A) where
  Step-AllSent :
      {group next : Group A}
      → Step n obj group next
      → AllOk n obj group
      → AllSent group
      → AllSent next
  Step-AllSent (calls group i lt free) ok all =
      moved group i next_call (λ w s. refl)
        (λ e f s h. free_sent (group 0) f s (subst (λ k. is_free (group k).phase ≡ true) e free) h)
        all
  Step-AllSent (gathers group i s states lt at run) ok all =
      let group' : Group A = on group 0 (put_states s states) in
      moved group' i (goes_to (waiting s)) (λ w s. refl)
        (λ e f u h.
          sent_by (group' 0) (sending s)
            (subst (λ k. (group' k).phase ≡ sending s) e
              ((kept_call n obj group 0 s states i).0 ∙ at))
            f u h)
        (stored_at_leader group s states all)
  Step-AllSent (follower_returns group i s pos lt at set) ok all =
      moved group i (goes_to (returned s ((group i).states s).gathered_objects)) (λ w s. refl)
        (λ e f u h. absurd (omega (arith, e, pos))) all
  Step-AllSent (leader_proceeds group s at set) ok all =
      moved group 0
        (goes_to (broadcasting s ((group 0).states s).gathered_objects (range_from 1 (n - 1))))
        (λ w s. refl) (λ e f u h. inl (sent_by (group 0) (waiting s) at f u h)) all
  Step-AllSent (broadcasts group s f objects followers states at member run) ok all =
      broadcasts_sent group s f objects followers states at all
  Step-AllSent (leader_returns group s objects at) ok all =
      let (seq, right, full, set, within) =
        phase_at n obj (λ k. sent_calls (group k)) (group 0) (broadcasting s objects []) (ok 0)
          at in
      moved group 0 (goes_to (returned s ((group 0).states s).gathered_objects)) (λ w s. refl)
        (λ e f u h. elim (sent_by (group 0) (broadcasting s objects []) at f u h) [
          | inl less ↦ omega (arith, seq, less)
          | inr (same, none_left) ↦ omega (arith, seq, same)
        ])
        all

  Reachable-AllSent : {group : Group A} → Reachable n obj group → AllSent group
  Reachable-AllSent at_first = λ f s pos h. absurd cc
  Reachable-AllSent (later before step) =
      Step-AllSent step (Reachable-AllOk n obj before) (Reachable-AllSent before)

  -- In every state that is reached, a follower to which the leader still sends accepts the objects:
  -- its signal for this call is not set yet.
  pub Reachable-delivers :
      (group : Group A) (s f : ℕ) (objects : Dict ℕ A) (followers : List ℕ)
      → Reachable n obj group
      → (group 0).phase ≡ broadcasting s objects followers
      → is_in f followers ≡ true
      → (states : States A) × (broadcast_to_follower objects ((group f).states s) ≡ some states)
        × (states.gathered_objects ≡ objects)
        × (states.proceed_signal ≡ true)
  unfolding broadcast_to_follower
  Reachable-delivers group s f objects followers reach at member =
      let (seq, right, full, ready, within) =
        phase_at n obj (λ k. sent_calls (group k)) (group 0) (broadcasting s objects followers)
          (Reachable-AllOk n obj reach 0) at in
      let unset : ((group f).states s).proceed_signal ≡ false =
        elim (Bool-cases ((group f).states s).proceed_signal) [
          | inr e ↦ e
          | inl e ↦
              elim (sent_by (group 0) (broadcasting s objects followers) at f s
                (Reachable-AllSent reach f s (within f member).0 e)) [
                  | inl less ↦ absurd (omega (arith, less))
                  | inr (same, gone) ↦ let clash : true ≡ false = sym member ∙ gone in absurd cc
                ]
        ] in
      (record { gathered_objects = objects; proceed_signal = true }, rw unset refl, refl, refl)
