-- ===== src/Distributed/Partitioner/Ends.antt =====
-- The number of the steps of a group.
use graphlearn_for_pytorch.Prelude.{
  ℕ, zero, suc, ◌+◌, ◌<◌, ◌≤◌, ◌≡◌, refl, ap, sym, ◌⊎◌, Bool, true, Option, some, List, [], ◌∷◌,
  arith, inl, inr, lt→ltb, length, get_elem?, replicate, ==_refl, length-replicate,
  lt-length_of_get,
}
use graphlearn_for_pytorch.Torch.{Torch}
use graphlearn_for_pytorch.Typing.{PartitionBook}
use graphlearn_for_pytorch.Distributed.Partitioner.{
  Manager, Results, receiver, put_at, Group, Step, performed, next_chunk, Reachable, at_first,
  later, Finished, new_group, reset,
}
use graphlearn_for_pytorch.Distributed.Partitioner.Sums.{
  weigh_zero, total, total_zero, total_change, put_at_self, put_at_other,
}
use graphlearn_for_pytorch.Distributed.Partitioner.Conserve.{
  weigh_results, load, left, left_performed, left_chunk, updates_zero,
}
use graphlearn_for_pytorch.Distributed.Partitioner.Runs.{ArePlaced, process-updates, Finished-left}
use graphlearn_for_pytorch.Distributed.Partitioner.Agree.{IsSent}
use graphlearn_for_pytorch.Distributed.Partitioner.Progress.{
  all_below, raises, InOrder, Step-InOrder, find-IsBusy, busy-steps,
}

ids_below :
    (size : ℕ) (ids : List ℕ)
    → ((k i : ℕ) → get_elem? ids k ≡ some i → i < size)
    → all_below size ids ≡ true
ids_below size [] h = refl
ids_below size (i ∷ ids) h =
    rw (lt→ltb i size (h 0 i refl), ids_below size ids (λ k. h (suc k))) refl

module _ {V : Type 0} (n : ℕ) (generate_pb : Bool) where
  -- The number of the steps that are left: a call each, and a chunk each.
  abbrev pub remaining : Group V → ℕ
  remaining g = left n generate_pb (λ u. 1) g + total n (λ w. length (g.chunks w))

  Step-remaining :
      (torch : Torch) {g next : Group V}
      → ArePlaced n generate_pb g.managers
      → Step torch n g next
      → suc (remaining next) ≡ remaining g
  Step-remaining torch ok (performed g w before u after m lt e run) = omega (
    arith,
    left_performed n generate_pb (λ u. 1) g w before u after (put_at (receiver u) m g.managers) lt
        e,
  )
  Step-remaining torch ok (next_chunk g w res_list rest us lt e e' run) =
      let same = process-updates n generate_pb w (g.managers w) res_list us (ok w lt) run in
      let fewer =
        total_change n w (λ i. length (g.chunks i)) (λ i. length (put_at w rest g.chunks i)) lt
          (λ i ne. ap (λ c. length c) (sym (put_at_other w i rest g.chunks ne))) in
      rw same (
        omega (
          arith,
          left_chunk n generate_pb (λ u. 1) g w res_list rest lt e e',
          fewer,
          ap (λ c. length c) e',
          ap (λ c. length c) (put_at_self w rest g.chunks),
        ))

  Reachable-remaining :
      (torch : Torch) (size : ℕ) {start g : Group V} {k : ℕ}
      → InOrder n size generate_pb torch start
      → Reachable torch n start k g
      → InOrder n size generate_pb torch g × (k + remaining g ≡ remaining start)
  Reachable-remaining torch size ok at_first = (ok, omega arith)
  Reachable-remaining torch size ok (later r step) =
      let (now, sum) = Reachable-remaining torch size ok r in
      (
        Step-InOrder n size generate_pb torch now step,
        omega (arith, sum, Step-remaining torch now.placed step),
      )

  module _ (torch : Torch) (size : ℕ) (managers : ℕ → Manager V)
      (chunks : ℕ → List (Results V)) where
    abbrev opened : Group V
    opened = new_group torch managers size generate_pb chunks

    new_group-InOrder :
        ArePlaced n generate_pb opened.managers
        → ((w c : ℕ) (res_list : Results V)
            → w < n
            → get_elem? (chunks w) c ≡ some res_list
            → length res_list ≡ n)
        → ((w p i : ℕ) → w < n → IsSent (chunks w) p i → i < size)
        → InOrder n size generate_pb torch opened
    unfolding new_group reset
    new_group-InOrder ok sized below = record {
      placed = ok;
      ready = λ w lt gen.
          (replicate size 0, rw (gen, torch.zeros_law size) refl, length-replicate size 0);
      right = total_zero n (load n generate_pb (raises n size generate_pb) opened) (λ w lt. omega (
        arith,
        weigh_zero (weigh_results n generate_pb (raises n size generate_pb)) (chunks w)
            (λ c res_list at.
              updates_zero n generate_pb (raises n size generate_pb) 0 res_list
                (λ p t val ids at' e. (
                  rw (lt→ltb t n (in_place w c p t res_list lt at at' e), ==_refl t) refl,
                  λ worker lt' gen.
                      rw
                        (
                          lt→ltb worker n lt',
                          gen,
                          ids_below size ids (λ k i at''. below w p i lt (record {
                            c = c;
                            k = k;
                            res_list = res_list;
                            val = val;
                            ids = ids;
                            in_chunks = at;
                            in_results = at';
                            in_ids = at'';
                          })),
                        )
                        refl,
                ))),
      ));
      sized = sized;
    }
      where
        in_place :
            (w c p t : ℕ) (res_list : Results V) {x : Option V × List ℕ}
            → w < n
            → get_elem? (chunks w) c ≡ some res_list
            → get_elem? res_list p ≡ some x
            → t ≡ 0 + p
            → t < n
        in_place w c p t res_list {x} lt at at' e =
            omega (arith, sized w c res_list lt at, lt-length_of_get res_list p x at', e)

    -- For managers each in its place among `n` workers, with results for `n` parts in each chunk
    -- and ids below the size of the books, in any order of the calls: after any number `k` of steps
    -- either every worker has reached the last barrier and `k` is the number of all the calls and
    -- chunks, or another step is possible, and `k` is below that number.
    pub new_group-runs_end :
        (k : ℕ) (g : Group V)
        → ArePlaced n generate_pb opened.managers
        → ((w c : ℕ) (res_list : Results V)
            → w < n
            → get_elem? (chunks w) c ≡ some res_list
            → length res_list ≡ n)
        → ((w p i : ℕ) → w < n → IsSent (chunks w) p i → i < size)
        → Reachable torch n opened k g
        → (Finished n g × (k ≡ remaining opened))
          ⊎ ((k < remaining opened) × (next : Group V) × Step torch n g next)
    new_group-runs_end k g ok sized below reach =
        let (now, sum) = Reachable-remaining torch size (new_group-InOrder ok sized below) reach in
        elim (find-IsBusy n size generate_pb torch g n (omega arith)) [
          | inl idle ↦
              let no_calls = Finished-left n generate_pb (λ u. 1) g idle in
              let no_chunks =
                total_zero n (λ w. length (g.chunks w))
                  (λ w lt. ap (λ c. length c) (idle w lt).1) in
              inl (idle, omega (arith, sum, no_calls, no_chunks))
          | inr (w, busy) ↦
              let (next, step) = busy-steps n size generate_pb torch g w now busy in
              inr (omega (arith, sum, Step-remaining torch now.placed step), next, step)
        ]

    -- Under the same conditions, every worker has a book of its size all along.
    pub new_group-has_books :
        (k : ℕ) (g : Group V)
        → ArePlaced n generate_pb opened.managers
        → ((w c : ℕ) (res_list : Results V)
            → w < n
            → get_elem? (chunks w) c ≡ some res_list
            → length res_list ≡ n)
        → ((w p i : ℕ) → w < n → IsSent (chunks w) p i → i < size)
        → Reachable torch n opened k g
        → generate_pb ≡ true
        → (r : ℕ) → r < n
        → (book : PartitionBook) × ((g.managers r).partition_book ≡ some book)
          × (length book ≡ size)
    new_group-has_books k g ok sized below reach gen r lt =
        (Reachable-remaining torch size (new_group-InOrder ok sized below) reach).0.ready r lt gen

    finishes_from :
        (fuel k : ℕ) (g : Group V)
        → InOrder n size generate_pb torch opened
        → Reachable torch n opened k g
        → remaining g ≤ fuel
        → (k' : ℕ) × (end : Group V) × Reachable torch n opened k' end × Finished n end
    finishes_from zero k g ok reach le =
        let (now, sum) = Reachable-remaining torch size ok reach in
        elim (find-IsBusy n size generate_pb torch g n (omega arith)) [
          | inl idle ↦ (k, g, reach, idle)
          | inr (w, busy) ↦
              let (next, step) = busy-steps n size generate_pb torch g w now busy in
              absurd (omega (arith, Step-remaining torch now.placed step, le))
        ]
    finishes_from (suc fuel) k g ok reach le =
        let (now, sum) = Reachable-remaining torch size ok reach in
        elim (find-IsBusy n size generate_pb torch g n (omega arith)) [
          | inl idle ↦ (k, g, reach, idle)
          | inr (w, busy) ↦
              let (next, step) = busy-steps n size generate_pb torch g w now busy in
              finishes_from fuel (suc k) next ok (later reach step)
                (omega (arith, Step-remaining torch now.placed step, le))
        ]

    -- Under the same conditions, some run reaches the last barrier.
    pub new_group-finishes :
        ArePlaced n generate_pb opened.managers
        → ((w c : ℕ) (res_list : Results V)
            → w < n
            → get_elem? (chunks w) c ≡ some res_list
            → length res_list ≡ n)
        → ((w p i : ℕ) → w < n → IsSent (chunks w) p i → i < size)
        → (k : ℕ) × (g : Group V) × Reachable torch n opened k g × Finished n g
    new_group-finishes ok sized below =
        finishes_from (remaining opened) 0 opened (new_group-InOrder ok sized below) at_first
          (omega arith)
