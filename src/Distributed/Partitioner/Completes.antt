-- ===== src/Distributed/Partitioner/Completes.antt =====
-- Running a round of programs to its end.
use graphlearn_for_pytorch.Prelude.{
  ℕ, ◌<◌, ◌≡◌, ap, sym, ◌∙◌, true, Option, some, List, length, get_elem?,
}
use mathlib.Core.Path.{subst}
use graphlearn_for_pytorch.Torch.{Torch}
use graphlearn_for_pytorch.Typing.{PartitionBook}
use graphlearn_for_pytorch.Distributed.Partitioner.{Manager, Results}
use graphlearn_for_pytorch.Distributed.Partitioner.Exchange.{
  Value, Exchange, returns, collective, Runs, all_return, exchanged,
}
use graphlearn_for_pytorch.Distributed.Partitioner.Rounds.{
  AreRanked, Round, AreRanked-ArePlaced, chunks_in, result_in,
}
use graphlearn_for_pytorch.Distributed.Partitioner.Runs.{Reachable-ArePlaced}
use graphlearn_for_pytorch.Distributed.Partitioner.Ends.{new_group-finishes}
use graphlearn_for_pytorch.Distributed.Partitioner.Agree.{IsSent}

module _ {Row A : Type 0} (torch : Torch) (n size : ℕ) (managers : ℕ → Manager (Value Row))
    (programs : ℕ → Exchange Row A) (P : ℕ → List (Results (Value Row)) → Type 0)
    (k : ℕ → List (Value Row) → Option PartitionBook → Exchange Row A) (default : A) where
  -- A round that can be run, and after which all workers return.
  pub Round-Runs :
      AreRanked n managers
      → ((w : ℕ)
          → w < n
          → (chunks : List (Results (Value Row))) × (programs w ≡ collective chunks size true (k w))
            × P w chunks)
      → ((w c : ℕ) (chunks : List (Results (Value Row))) (res_list : Results (Value Row))
          → w < n
          → P w chunks
          → get_elem? chunks c ≡ some res_list
          → length res_list ≡ n)
      → ((w p i : ℕ) (chunks : List (Results (Value Row)))
          → w < n
          → P w chunks
          → IsSent chunks p i
          → i < size)
      → ((round : Round torch n managers P size true) (w : ℕ)
          → w < n
          → (a : A) × (k w
                (round.group.managers w).cur_part_val_list
                (round.group.managers w).partition_book
              ≡ returns a))
      → (results : ℕ → A) × Runs torch n results managers programs
  unfolding chunks_in result_in
  Round-Runs ranked calls sizes below ends =
      let sent = λ (w : ℕ). chunks_in (programs w) in
      let same = λ (w : ℕ) (lt : w < n). ap chunks_in (calls w lt).1 in
      let sends = λ (w : ℕ) (lt : w < n). subst (P w) (sym (same w lt)) (calls w lt).2 in
      let placed = AreRanked-ArePlaced torch n size true managers sent ranked in
      let (steps, g, reach, done) =
        new_group-finishes n true torch size managers sent placed
          (λ w c res lt at. sizes w c (sent w) res lt (sends w lt) at)
          (λ w p i lt s. below w p i (sent w) lt (sends w lt) s) in
      let now = Reachable-ArePlaced torch n true placed reach in
      let round : Round torch n managers P size true = record {
        sent_chunks = sent;
        sends = sends;
        steps = steps;
        group = g;
        reached = reach;
        finished = done;
        ranked = λ w lt. ((now w lt).parts, (now w lt).rank);
      } in
      let next = λ (w : ℕ). k w (g.managers w).cur_part_val_list (g.managers w).partition_book in
      (
        λ w. result_in default (next w),
        exchanged managers programs sent size true k steps g
            (λ w lt. (calls w lt).1 ∙ ap (λ c. collective c size true (k w)) (sym (same w lt)))
            reach done
            (all_return g.managers next (λ w lt.
              (ends round w lt).1 ∙ ap returns (ap (result_in default) (sym (ends round w lt).1)))),
      )
