-- ===== src/Distributed/EventLoop/Permits.antt =====
-- Who holds the permits of the semaphore, in every state that the threads can reach.
use mathlib.Core.Path.{subst}
use graphlearn_for_pytorch.Prelude.{
  ℕ, zero, suc, ◌+◌, ◌-◌, ◌≤◌, ◌<◌, ◌≡◌, ◌≢◌, refl, ap, ◌∙◌, false, none, some, List, [], ◌∷◌, ◌++◌,
  arith, leb, get_elem?, set, some_inj,
}
use graphlearn_for_pytorch.Distributed.EventLoop.{
  BoundedSemaphore, acquire, release, Call, starting, running, acquiring, releasing, finished,
  ConcurrentEventLoop, new_loop, advance, after, Step, adds, waits, goes_on, Reachable, at_first,
  later,
}

abbrev pub held : Call → ℕ
held starting = 0
held running = 1
held (acquiring rounds) = rounds
held (releasing rounds) = rounds
held finished = 0

abbrev pub all_held : List Call → ℕ
all_held [] = 0
all_held (call ∷ calls) = held call + all_held calls

all_held-append : (xs ys : List Call) → all_held (xs ++ ys) ≡ all_held xs + all_held ys
all_held-append [] ys = omega arith
all_held-append (x ∷ xs) ys = omega (arith, all_held-append xs ys)

all_held-set :
    (calls : List Call) (i : ℕ) (old new : Call)
    → get_elem? calls i ≡ some old
    → all_held (set calls i new) + held old ≡ all_held calls + held new
all_held-set [] i old new e = cc
all_held-set (x ∷ xs) zero old new e = omega (arith, ap held (some_inj e))
all_held-set (x ∷ xs) (suc i) old new e = omega (arith, all_held-set xs i old new e)

held-le-all :
    (calls : List Call) (i : ℕ) (call : Call)
    → get_elem? calls i ≡ some call
    → held call ≤ all_held calls
held-le-all [] i call e = cc
held-le-all (x ∷ xs) zero call e = omega (arith, ap held (some_inj e))
held-le-all (x ∷ xs) (suc i) call e = omega (arith, held-le-all xs i call e)

two_held :
    (calls : List Call) (i j : ℕ) (a b : Call)
    → i ≢ j
    → get_elem? calls i ≡ some a
    → get_elem? calls j ≡ some b
    → held a + held b ≤ all_held calls
two_held [] i j a b ne ea eb = cc
two_held (x ∷ xs) zero zero a b ne ea eb = absurd (ne refl)
two_held (x ∷ xs) zero (suc j) a b ne ea eb =
    omega (arith, ap held (some_inj ea), held-le-all xs j b eb)
two_held (x ∷ xs) (suc i) zero a b ne ea eb =
    omega (arith, ap held (some_inj eb), held-le-all xs i a ea)
two_held (x ∷ xs) (suc i) (suc j) a b ne ea eb =
    omega (arith, two_held xs i j a b (λ e. ne (ap suc e)) ea eb)

lt-leb : (a b : ℕ) → a < b → leb b a ≡ false
lt-leb a b h = ground arith

-- A step of a call moves permits between the semaphore and the call.
advance-moves :
    (c : ℕ) (sem sem' : BoundedSemaphore) (call call' : Call)
    → advance c sem call ≡ some (sem', call')
    → held call ≤ c
    → (sem'.initial ≡ sem.initial) × (sem'.value + held call' ≡ sem.value + held call)
unfolding advance acquire release
advance-moves c sem sem' starting call' e h = ground arith
advance-moves c sem sem' running call' e h = ground arith
advance-moves c sem sem' (acquiring k) call' e h = ground arith
advance-moves c sem sem' (releasing zero) call' e h = ground arith
advance-moves c sem sem' (releasing (suc k)) call' e h = ground arith
advance-moves c sem sem' finished call' e h = cc

-- In every state that is reached: the free permits and those that the calls hold are the
-- concurrency.
pub record Conserved (c : ℕ) (loop : ConcurrentEventLoop) : Type 0 where
  pub same_concurrency : loop.concurrency ≡ c
  pub same_initial : loop.sem.initial ≡ c
  pub sum : loop.sem.value + all_held loop.calls ≡ c

goes_on-Conserved :
    (c : ℕ) (loop : ConcurrentEventLoop) (i : ℕ) (call call' : Call) (sem' : BoundedSemaphore)
    → Conserved c loop
    → get_elem? loop.calls i ≡ some call
    → advance loop.concurrency loop.sem call ≡ some (sem', call')
    → Conserved c (after loop i sem' call')
goes_on-Conserved c loop i call call' sem' ok at e =
    let below : held call ≤ loop.concurrency =
      omega (arith, held-le-all loop.calls i call at, ok.same_concurrency, ok.sum) in
    let (same, moved) = advance-moves loop.concurrency loop.sem sem' call call' e below in
    record {
      same_concurrency = ok.same_concurrency;
      same_initial = same ∙ ok.same_initial;
      sum = omega (arith, moved, ok.sum, all_held-set loop.calls i call call' at);
    }

Step-Conserved :
    (c : ℕ) {loop next : ConcurrentEventLoop} → Conserved c loop → Step loop next → Conserved c next
Step-Conserved c ok (adds loop) = record {
  same_concurrency = ok.same_concurrency;
  same_initial = ok.same_initial;
  sum = omega (arith, ok.sum, all_held-append loop.calls (starting ∷ []));
}
Step-Conserved c ok (waits loop) = record {
  same_concurrency = ok.same_concurrency;
  same_initial = ok.same_initial;
  sum = omega (arith, ok.sum, all_held-append loop.calls (acquiring 0 ∷ []));
}
Step-Conserved c ok (goes_on loop i call call' sem' at e) =
    goes_on-Conserved c loop i call call' sem' ok at e

-- The free permits and those held are together the concurrency, in every state that is reached.
pub Reachable-Conserved : (c : ℕ) (loop : ConcurrentEventLoop) → Reachable c loop → Conserved c loop
unfolding new_loop
Reachable-Conserved c loop at_first = record {
  same_concurrency = refl;
  same_initial = refl;
  sum = omega arith;
}
Reachable-Conserved c loop (later r step) = Step-Conserved c (Reachable-Conserved c _ r) step

-- In every state that is reached, a call that holds a permit can give it back: no release raises.
pub Reachable-can_release :
    (c : ℕ) (loop : ConcurrentEventLoop) (i : ℕ) (call : Call)
    → Reachable c loop
    → get_elem? loop.calls i ≡ some call
    → 0 < held call
    → (sem' : BoundedSemaphore) × (release loop.sem ≡ some sem')
unfolding release
Reachable-can_release c loop i call r at h =
    let ok = Reachable-Conserved c loop r in
    (
      record loop.sem { value = loop.sem.value + 1 },
      rw
          (lt-leb loop.sem.value loop.sem.initial
            (omega (arith, held-le-all loop.calls i call at, ok.sum, ok.same_initial)))
          refl,
    )

-- In every state that is reached, once a call of `wait_all` has acquired every permit, no other
-- call holds one: no coroutine is running.
pub Reachable-waited_for_all :
    (c : ℕ) (loop : ConcurrentEventLoop) (i j : ℕ) (call other : Call)
    → Reachable c loop
    → get_elem? loop.calls i ≡ some call
    → held call ≡ c
    → i ≢ j
    → get_elem? loop.calls j ≡ some other
    → (held other ≡ 0) × (loop.sem.value ≡ 0) × (other ≢ running)
Reachable-waited_for_all c loop i j call other r at h ne at' =
    let ok = Reachable-Conserved c loop r in
    let pair = two_held loop.calls i j call other ne at at' in
    let none_held : held other ≡ 0 = omega (arith, pair, ok.sum, h) in
    (none_held, omega (arith, pair, ok.sum, h), λ e. omega (arith, ap held e, none_held))

blocked :
    (c : ℕ) (sem : BoundedSemaphore) (k : ℕ)
    → sem.value ≡ 0
    → k < c
    → advance c sem (acquiring k) ≡ none
unfolding advance acquire
blocked c sem k e h = ground arith

taken :
    (c : ℕ) (sem : BoundedSemaphore) (k : ℕ)
    → 0 < sem.value
    → k < c
    → advance c sem (acquiring k) ≡ some (record sem { value = sem.value - 1 }, acquiring (k + 1))
unfolding advance acquire
taken c sem k e h = ground arith

abbrev two_waiting : ℕ → ℕ → ℕ → ℕ → ConcurrentEventLoop
two_waiting c value k j = record {
  concurrency = c;
  sem = record { initial = c; value = value };
  calls = acquiring k ∷ acquiring j ∷ [];
}

both_block :
    (c v : ℕ)
    → v ≡ 0
    → (i : ℕ) (call : Call) → get_elem? (acquiring (suc c) ∷ acquiring 1 ∷ []) i ≡ some call
    → advance (suc (suc c)) (record { initial = suc (suc c); value = v }) call ≡ none
both_block c v e zero call at = rw (← some_inj at) (blocked (suc (suc c)) _ (suc c) e (omega arith))
both_block c v e (suc zero) call at = rw (← some_inj at) (blocked (suc (suc c)) _ 1 e (omega arith))
both_block c v e (suc (suc i)) call at = cc

first_waits : (c k : ℕ) → k < c → (v : ℕ) × (v + k ≡ c) × Reachable c (two_waiting c v k 0)
unfolding new_loop
first_waits c zero h = (c, omega arith, later (later at_first (waits _)) (waits _))
first_waits c (suc k) h =
    let (v, sum, r) = first_waits c k (omega arith) in
    let pos : 0 < v = omega (arith, sum) in
    let at : v - 1 + suc k ≡ c = omega (arith, sum) in
    let next : k + 1 ≡ suc k = omega arith in
    (
      v - 1,
      at,
      subst (λ m. Reachable c (two_waiting c (v - 1) m 0)) next
          (later r
            (goes_on _ 0 (acquiring k) (acquiring (k + 1)) _ refl (taken c _ k pos (omega arith)))),
    )

-- Two threads that wait for all tasks at once can block each other for good: for a concurrency of
-- at least two, a state is reached in which both are still in their first loop and neither goes on.
pub Reachable-two_waits_block :
    (c : ℕ)
    → (loop : ConcurrentEventLoop) × Reachable (suc (suc c)) loop
      × (loop.calls ≡ acquiring (suc c) ∷ acquiring 1 ∷ [])
      × ((i : ℕ) (call : Call)
          → get_elem? loop.calls i ≡ some call
          → advance loop.concurrency loop.sem call ≡ none)
Reachable-two_waits_block c =
    let (v, sum, r) = first_waits (suc (suc c)) (suc c) (omega arith) in
    let pos : 0 < v = omega (arith, sum) in
    let none_left : v - 1 ≡ 0 = omega (arith, sum) in
    (
      two_waiting (suc (suc c)) (v - 1) (suc c) 1,
      later r (
          goes_on _ 1 (acquiring 0) (acquiring 1) _ refl
            (taken (suc (suc c)) _ 0 pos (omega arith))),
      refl,
      both_block c (v - 1) none_left,
    )
