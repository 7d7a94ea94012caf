-- ===== src/Tests/Gathering.antt =====
-- A group of two workers gathers their numbers.
use graphlearn_for_pytorch.Prelude.{
  ℕ, ◌+◌, ◌*◌, ◌<◌, ◌≤◌, ◌≡◌, refl, none, some, [], ◌∷◌, lookup, nat_keys, true, false, arith,
}
use graphlearn_for_pytorch.Distributed.Rpc.Gather.{
  States, no_states, gather_to_leader, broadcast_to_follower, waiting, broadcasting, returned,
  Group, no_calls, on, goes_to, put_states, next_call, calls, gathers, follower_returns,
  leader_proceeds, broadcasts, Reachable, at_first, later,
}
use graphlearn_for_pytorch.Distributed.Rpc.Gather.Workers.{sent_calls}
use graphlearn_for_pytorch.Distributed.Rpc.Gather.Agreement.{Reachable-agree, Reachable-accepts}
use graphlearn_for_pytorch.Distributed.Rpc.Gather.Delivery.{Reachable-delivers}

abbrev number : ℕ → ℕ → ℕ
number i s = 10 * s + i + 5

abbrev both_called : Group ℕ
both_called = on (on no_calls 0 next_call) 1 next_call

both_called-Reachable : Reachable 2 number both_called
both_called-Reachable =
    later (later at_first (calls no_calls 0 (omega arith) refl))
      (calls (on no_calls 0 next_call) 1 (omega arith) refl)

-- The follower is the first to report.
abbrev one_report : States ℕ
one_report = record { gathered_objects = (1, 6) ∷ []; proceed_signal = false }

abbrev two_reports : States ℕ
two_reports = record { gathered_objects = (1, 6) ∷ (0, 5) ∷ []; proceed_signal = true }

one_report_stored : gather_to_leader 2 1 6 no_states ≡ some one_report
unfolding gather_to_leader
one_report_stored = refl

two_reports_stored : gather_to_leader 2 0 5 one_report ≡ some two_reports
unfolding gather_to_leader
two_reports_stored = refl

abbrev one_sent : Group ℕ
one_sent = on (on both_called 0 (put_states 0 one_report)) 1 (goes_to (waiting 0))

abbrev two_sent : Group ℕ
two_sent = on (on one_sent 0 (put_states 0 two_reports)) 0 (goes_to (waiting 0))

abbrev leader_sends : Group ℕ
leader_sends = on two_sent 0 (goes_to (broadcasting 0 two_reports.gathered_objects (1 ∷ [])))

leader_sends-Reachable : Reachable 2 number leader_sends
leader_sends-Reachable =
    later
      (later
        (later both_called-Reachable
          (gathers both_called 1 0 one_report (omega arith) refl one_report_stored))
        (gathers one_sent 0 0 two_reports (omega arith) refl two_reports_stored))
      (leader_proceeds two_sent 0 refl refl)

abbrev follower_has : Group ℕ
follower_has =
    on (on leader_sends 1 (put_states 0 two_reports)) 0
      (goes_to (broadcasting 0 two_reports.gathered_objects []))

two_reports_sent : broadcast_to_follower two_reports.gathered_objects no_states ≡ some two_reports
unfolding broadcast_to_follower
two_reports_sent = refl

follower_done-Reachable :
    Reachable 2 number (on follower_has 1 (goes_to (returned 0 two_reports.gathered_objects)))
follower_done-Reachable =
    later
      (later leader_sends-Reachable (
        broadcasts leader_sends 0 1 two_reports.gathered_objects (1 ∷ []) two_reports refl refl
          two_reports_sent))
      (follower_returns follower_has 1 0 (omega arith) (omega arith) refl refl)

abbrev follower_done : Group ℕ
follower_done = on follower_has 1 (goes_to (returned 0 two_reports.gathered_objects))

Reachable-agree_example :
    ((j : ℕ)
      → j < 2
      → (lookup two_reports.gathered_objects j ≡ some (number j 0))
        × (0 < sent_calls (follower_done j)))
    × ((j : ℕ) → 2 ≤ j → lookup two_reports.gathered_objects j ≡ none)
Reachable-agree_example =
    Reachable-agree 2 number follower_done 1 0 two_reports.gathered_objects follower_done-Reachable
      refl

Reachable-accepts_example :
    (states : States ℕ) × (gather_to_leader 2 1 6 ((both_called 0).states 0) ≡ some states)
    × (lookup states.gathered_objects 1 ≡ some 6)
Reachable-accepts_example =
    Reachable-accepts 2 number both_called 1 0 both_called-Reachable (omega arith) refl

Reachable-delivers_example :
    (states : States ℕ) × (broadcast_to_follower two_reports.gathered_objects
        ((leader_sends 1).states 0)
      ≡ some states)
    × (states.gathered_objects ≡ two_reports.gathered_objects)
    × (states.proceed_signal ≡ true)
Reachable-delivers_example =
    Reachable-delivers 2 number leader_sends 0 1 two_reports.gathered_objects (1 ∷ [])
      leader_sends-Reachable refl refl
