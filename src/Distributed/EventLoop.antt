-- ===== src/Distributed/EventLoop.antt =====
-- `ConcurrentEventLoop` of graphlearn_torch/python/distributed/event_loop.py: threads that add
-- tasks, run them and wait for all of them, around one bounded semaphore.
use graphlearn_for_pytorch.Prelude.{
  ℕ, zero, suc, ◌+◌, ◌-◌, ◌≡◌, Option, none, some, List, [], ◌∷◌, ◌++◌, ◌==◌, ltb, leb,
  if◌then◌else◌, get_elem?, set, ◌>>=◌,
}
pub mod Permits

-- `threading.BoundedSemaphore`.
pub record BoundedSemaphore : Type 0 where
  pub initial : ℕ
  pub value : ℕ

-- Nothing for a thread that blocks.
unfoldable pub acquire : BoundedSemaphore → Option BoundedSemaphore
acquire sem = if sem.value == 0 then none else some (record sem { value = sem.value - 1 })

-- Nothing for the ValueError of a release too many.
unfoldable pub release : BoundedSemaphore → Option BoundedSemaphore
release sem =
    if leb sem.initial sem.value then none else some (record sem { value = sem.value + 1 })

-- Where a call of `add_task`, `run_task` or `wait_all` stands: before its first acquire, with its
-- coroutine on the loop, after some rounds of the first or second loop of `wait_all`, at its end.
pub data Call : Type 0 where
  starting : Call
  running : Call
  acquiring : ℕ → Call
  releasing : ℕ → Call
  finished : Call

pub record ConcurrentEventLoop : Type 0 where
  pub concurrency : ℕ
  pub sem : BoundedSemaphore
  pub calls : List Call

unfoldable pub new_loop : ℕ → ConcurrentEventLoop
new_loop concurrency = record {
  concurrency = concurrency;
  sem = record { initial = concurrency; value = concurrency };
  calls = [];
}

-- The next thing that a call does. A coroutine that ends, with a result or an exception, releases
-- its permit, in `on_done` or at the end of the `with` block.
unfoldable pub advance : ℕ → BoundedSemaphore → Call → Option (BoundedSemaphore × Call)
advance concurrency sem starting = acquire sem >>= λ sem'. some (sem', running)
advance concurrency sem running = release sem >>= λ sem'. some (sem', finished)
advance concurrency sem (acquiring rounds) =
    if ltb rounds concurrency
    then (acquire sem >>= λ sem'. some (sem', acquiring (rounds + 1)))
    else some (sem, releasing concurrency)
advance concurrency sem (releasing zero) = some (sem, finished)
advance concurrency sem (releasing (suc rounds)) =
    release sem >>= λ sem'. some (sem', releasing rounds)
advance concurrency sem finished = none

abbrev pub after : ConcurrentEventLoop → ℕ → BoundedSemaphore → Call → ConcurrentEventLoop
after loop i sem call = record loop { sem = sem; calls = set loop.calls i call }

-- A thread calls `add_task` or `run_task`, or `wait_all`, or one call goes on.
pub data Step : ConcurrentEventLoop → ConcurrentEventLoop → Type 0 where
  adds :
      (loop : ConcurrentEventLoop) → Step loop (record loop { calls = loop.calls ++ starting ∷ [] })
  waits :
      (loop : ConcurrentEventLoop)
      → Step loop (record loop { calls = loop.calls ++ acquiring 0 ∷ [] })
  goes_on :
      (loop : ConcurrentEventLoop) (i : ℕ) (call call' : Call) (sem' : BoundedSemaphore)
      → get_elem? loop.calls i ≡ some call
      → advance loop.concurrency loop.sem call ≡ some (sem', call')
      → Step loop (after loop i sem' call')

pub data Reachable (concurrency : ℕ) : ConcurrentEventLoop → Type 0 where
  at_first : Reachable concurrency (new_loop concurrency)
  later :
      {loop next : ConcurrentEventLoop}
      → Reachable concurrency loop
      → Step loop next
      → Reachable concurrency next
