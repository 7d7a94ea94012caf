-- ===== src/Distributed/Partitioner/Rounds.antt =====
-- One round of a group of programs: what every worker has after a call of `_partition_by_chunk`.
use graphlearn_for_pytorch.Prelude.{
  ℕ, ◌<◌, ◌≡◌, refl, ap, sym, ◌∙◌, Bool, true, false, Option, List, [],
}
use mathlib.Core.Path.{subst}
use graphlearn_for_pytorch.Torch.{Torch}
use graphlearn_for_pytorch.Typing.{PartitionBook}
use graphlearn_for_pytorch.Distributed.Partitioner.{
  Manager, Results, Reachable, Finished, Group, new_group, reset,
}
use graphlearn_for_pytorch.Distributed.Partitioner.Runs.{ArePlaced, Reachable-ArePlaced}
use graphlearn_for_pytorch.Distributed.Partitioner.Exchange.{
  Value, Exchange, returns, raises, collective, Runs, all_return, exchanged,
}

-- Each manager is in its place among `n` workers.
abbrev pub AreRanked : {V : Type 0} → ℕ → (ℕ → Manager V) → Type 0
AreRanked n managers = (w : ℕ) → w < n → ((managers w).num_parts ≡ n) × ((managers w).cur_pidx ≡ w)

pub AreRanked-ArePlaced :
    {V : Type 0} (torch : Torch) (n size : ℕ) (generate_pb : Bool) (managers : ℕ → Manager V)
    (chunks : ℕ → List (Results V))
    → AreRanked n managers
    → ArePlaced n generate_pb (new_group torch managers size generate_pb chunks).managers
unfolding new_group reset
AreRanked-ArePlaced torch n size generate_pb managers chunks ok =
    λ w lt. record { parts = (ok w lt).0; rank = (ok w lt).1; books = refl }

-- A round of `n` workers that is over. What a worker `w` has sent satisfies `P w`.
pub record Round {Row : Type 0} (torch : Torch) (n : ℕ) (managers : ℕ → Manager (Value Row))
    (P : ℕ → List (Results (Value Row)) → Type 0) (size : ℕ) (generate_pb : Bool) : Type 0 where
  pub sent_chunks : ℕ → List (Results (Value Row))
  pub sends : (w : ℕ) → w < n → P w (sent_chunks w)
  pub steps : ℕ
  pub group : Group (Value Row)
  pub reached :
      Reachable torch n (new_group torch managers size generate_pb sent_chunks) steps group
  pub finished : Finished n group
  pub ranked : AreRanked n group.managers

module _ {Row A : Type 0} where
  unfoldable pub chunks_in : Exchange Row A → List (Results (Value Row))
  chunks_in (returns a) = []
  chunks_in raises = []
  chunks_in (collective chunks size generate_pb k) = chunks

  size_in : Exchange Row A → ℕ
  size_in (returns a) = 0
  size_in raises = 0
  size_in (collective chunks size generate_pb k) = size

  has_book : Exchange Row A → Bool
  has_book (returns a) = false
  has_book raises = false
  has_book (collective chunks size generate_pb k) = generate_pb

  next_in : Exchange Row A → List (Value Row) → Option PartitionBook → Exchange Row A
  next_in (returns a) values book = raises
  next_in raises values book = raises
  next_in (collective chunks size generate_pb k) values book = k values book

  waiting : Exchange Row A → Bool
  waiting (returns a) = false
  waiting raises = false
  waiting (collective chunks size generate_pb k) = true

  unfoldable pub result_in : A → Exchange Row A → A
  result_in a (returns b) = b
  result_in a raises = a
  result_in a (collective chunks size generate_pb k) = a

  module _ (torch : Torch) (n : ℕ) (results : ℕ → A) where
    pub Runs-Round :
        (managers : ℕ → Manager (Value Row)) (programs : ℕ → Exchange Row A)
        (P : ℕ → List (Results (Value Row)) → Type 0) (size : ℕ) (generate_pb : Bool)
        (k : ℕ → List (Value Row) → Option PartitionBook → Exchange Row A)
        → 0 < n
        → AreRanked n managers
        → ((w : ℕ)
            → w < n
            → (chunks : List (Results (Value Row))) × (programs w
                ≡ collective chunks size generate_pb (k w))
              × P w chunks)
        → Runs torch n results managers programs
        → (round : Round torch n managers P size generate_pb) × (programs' : ℕ → Exchange Row A)
          × ((w : ℕ)
              → w < n
              → programs' w
                ≡ k w
                    (round.group.managers w).cur_part_val_list
                    (round.group.managers w).partition_book)
          × Runs torch n results round.group.managers programs'
    unfolding chunks_in size_in has_book next_in waiting
    Runs-Round managers programs P size generate_pb k pos ranked calls (all_return _ _ done) =
        let clash : true ≡ false = ap waiting (sym (calls 0 pos).1 ∙ done 0 pos) in absurd (cc)
    Runs-Round managers programs P size generate_pb k pos ranked calls
          (exchanged _ _ chunks' size' generate_pb' k' steps g calls' reach done rest) =
        let e = λ (w : ℕ) (lt : w < n). sym (calls' w lt) ∙ (calls w lt).1 in
        let same_size : size' ≡ size = ap size_in (e 0 pos) in
        let same_book : generate_pb' ≡ generate_pb = ap has_book (e 0 pos) in
        let reach' =
          subst (λ s. Reachable torch n (new_group torch managers s generate_pb chunks') steps g)
            same_size
            (subst (λ b. Reachable torch n (new_group torch managers size' b chunks') steps g)
              same_book reach) in
        let placed =
          Reachable-ArePlaced torch n generate_pb
            (AreRanked-ArePlaced torch n size generate_pb managers chunks' ranked) reach' in
        (
          record {
            sent_chunks = chunks';
            sends = λ w lt. subst (P w) (sym (ap chunks_in (e w lt))) (calls w lt).2;
            steps = steps;
            group = g;
            reached = reach';
            finished = done;
            ranked = λ w lt. ((placed w lt).parts, (placed w lt).rank);
          },
          λ w. k' w (g.managers w).cur_part_val_list (g.managers w).partition_book,
          λ w lt.
              ap (λ x. next_in x (g.managers w).cur_part_val_list (g.managers w).partition_book)
                (e w lt),
          rest,
        )

    pub Runs-result :
        (managers : ℕ → Manager (Value Row)) (programs : ℕ → Exchange Row A) (w : ℕ) (a : A)
        → w < n
        → programs w ≡ returns a
        → Runs torch n results managers programs
        → results w ≡ a
    unfolding waiting result_in
    Runs-result managers programs w a lt e (all_return _ _ done) =
        ap (result_in (results w)) (sym (done w lt) ∙ e)
    Runs-result managers programs w a lt e
          (exchanged _ _ chunks' size' generate_pb' k' steps g calls' reach done rest) =
        let clash : true ≡ false = ap waiting (sym (calls' w lt) ∙ e) in absurd (cc)
