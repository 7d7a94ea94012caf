-- ===== src/Tests/Loop.antt =====
-- Threads around the semaphore of an event loop.
use graphlearn_for_pytorch.Prelude.{ℕ, zero, ◌≡◌, ◌≢◌, refl, none, some, [], ◌∷◌, arith, get_elem?}
use graphlearn_for_pytorch.Distributed.EventLoop.{
  BoundedSemaphore, release, Call, starting, running, acquiring, ConcurrentEventLoop, acquire,
  new_loop, advance, goes_on, adds, waits, Reachable, at_first, later,
}
use graphlearn_for_pytorch.Distributed.EventLoop.Permits.{
  Conserved, Reachable-Conserved, Reachable-can_release, Reachable-waited_for_all,
  Reachable-two_waits_block,
}

abbrev one_task : ConcurrentEventLoop
one_task = record { concurrency = 2; sem = record { initial = 2; value = 1 }; calls = running ∷ [] }

one_task_reached : Reachable 2 one_task
unfolding new_loop advance acquire
one_task_reached = later (later at_first (adds _)) (
    goes_on
      (record { concurrency = 2; sem = record { initial = 2; value = 2 }; calls = starting ∷ [] }) 0
      starting running (record { initial = 2; value = 1 }) refl refl)

abbrev all_waited : ConcurrentEventLoop
all_waited = record {
  concurrency = 1;
  sem = record { initial = 1; value = 0 };
  calls = acquiring 1 ∷ starting ∷ [];
}

all_waited_reached : Reachable 1 all_waited
unfolding new_loop advance acquire
all_waited_reached = later (later (later at_first (waits _)) (adds _)) (
    goes_on
      (record {
        concurrency = 1;
        sem = record { initial = 1; value = 1 };
        calls = acquiring 0 ∷ starting ∷ [];
      })
      0 (acquiring 0) (acquiring 1) (record { initial = 1; value = 0 }) refl refl)

Reachable-Conserved_example : Conserved 2 one_task
Reachable-Conserved_example = Reachable-Conserved 2 one_task one_task_reached

Reachable-can_release_example :
    (sem' : BoundedSemaphore) × (release (record { initial = 2; value = 1 }) ≡ some sem')
Reachable-can_release_example =
    Reachable-can_release 2 one_task 0 running one_task_reached refl (omega arith)

Reachable-waited_for_all_example : (zero ≡ 0) × (zero ≡ 0) × (starting ≢ running)
Reachable-waited_for_all_example =
    Reachable-waited_for_all 1 all_waited 0 1 (acquiring 1) starting all_waited_reached refl refl
      (omega arith) refl

Reachable-two_waits_block_example :
    (loop : ConcurrentEventLoop) × Reachable 2 loop
    × (loop.calls ≡ acquiring 1 ∷ acquiring 1 ∷ [])
    × ((i : ℕ) (call : Call)
        → get_elem? loop.calls i ≡ some call
        → advance loop.concurrency loop.sem call ≡ none)
Reachable-two_waits_block_example = Reachable-two_waits_block 0
