-- ===== src/Distributed/Partitioner/EdgeRound.antt =====
-- The round of `_partition_graph` on all workers of a group: the books, and the values of a part.
use graphlearn_for_pytorch.Prelude.{
  ℕ, ◌<◌, ◌≡◌, refl, ap, ap₂, sym, ◌∙◌, inl, true, Option, none, some, List, [], ◌∷◌, arith, length,
  get_elem?, get_elem?-lt, some_inj,
}
use mathlib.Core.Path.{subst}
use graphlearn_for_pytorch.Torch.{Torch, gather, select}
use graphlearn_for_pytorch.Typing.{PartitionBook}
use graphlearn_for_pytorch.Partition.Base.{EdgeIndex}
use graphlearn_for_pytorch.Partition.Chunks.{in_part}
use graphlearn_for_pytorch.Distributed.Partitioner.{Manager, Results}
use graphlearn_for_pytorch.Distributed.Partitioner.Sums.{
  weigh, weigh_zero, weigh_at, total, total_same, total-le, total_zero,
}
use graphlearn_for_pytorch.Distributed.Partitioner.Values.{
  sent, option_weight, new_group-values_kept,
}
use graphlearn_for_pytorch.Distributed.Partitioner.Chunked.{AllSplit}
use graphlearn_for_pytorch.Distributed.Partitioner.Sent.{
  HasPart, AllSplit-IsSent, AllSplit-part, weigh-given,
}
use graphlearn_for_pytorch.Distributed.Partitioner.Agree.{IsSent, new_group-books_agree}
use graphlearn_for_pytorch.Distributed.Partitioner.Ends.{new_group-has_books}
use graphlearn_for_pytorch.Distributed.Partitioner.Exchange.{Value, edge_columns}
use graphlearn_for_pytorch.Distributed.Partitioner.Rounds.{AreRanked, AreRanked-ArePlaced, Round}
use graphlearn_for_pytorch.Distributed.Partitioner.Rows.{edge_rows, value_items}
use graphlearn_for_pytorch.Distributed.Partitioner.Aligned.{AreAligned}
use graphlearn_for_pytorch.Distributed.Partitioner.EdgeChunks.{EdgeChunks, with_ids}
use graphlearn_for_pytorch.Distributed.Partitioner.Joined.{
  misaligned, AreAligned-misaligned, edge_weight, weigh-map-inl, select-map,
}

-- No id is that of two edges.
abbrev pub AreUnique : ℕ → (ℕ → List ℕ) → Type 0
AreUnique n ids =
    (w v k j i : ℕ)
    → w < n
    → v < n
    → get_elem? (ids w) k ≡ some i
    → get_elem? (ids v) j ≡ some i
    → (w ≡ v) × (k ≡ j)

module _ (torch : Torch) {Row : Type 0} (n m : ℕ) (pb : PartitionBook)
    (managers : ℕ → Manager (Value Row)) (columns : ℕ → EdgeIndex) (ids targets all : ℕ → List ℕ)
    (pos : 0 < n) (ranked : AreRanked n managers)
    (read : (w : ℕ) → w < n → gather pb (targets w) ≡ some (all w))
    (below : (w j i : ℕ) → w < n → get_elem? (ids w) j ≡ some i → i < m) (unique : AreUnique n ids)
    (round : Round torch n managers
      (λ w. EdgeChunks n pb (targets w) (ids w) (with_ids (columns w) (ids w)))
      m
      true) where
  -- The parts of a worker's edges are those read from the book.
  split_of :
      (w : ℕ) (lt : w < n)
      → AllSplit value_items n
          (ids w)
          (value_items {Row = Row} (edge_columns (with_ids (columns w) (ids w))))
          (all w)
          (round.sent_chunks w)
  split_of w lt =
      let e : (round.sends w lt).parts ≡ all w =
        some_inj (sym (round.sends w lt).read ∙ read w lt) in
      subst
        (λ ps.
          AllSplit value_items n (ids w)
            (value_items {Row = Row} (edge_columns (with_ids (columns w) (ids w)))) ps
            (round.sent_chunks w))
        e (round.sends w lt).split

  sent_edge :
      (w p i : ℕ) (lt : w < n) → IsSent (round.sent_chunks w) p i → HasPart (ids w) (all w) p i
  sent_edge w p i lt s =
      let rows = value_items {Row = Row} (edge_columns (with_ids (columns w) (ids w))) in
      (AllSplit-IsSent value_items n (ids w) rows (all w) (round.sent_chunks w) p i (split_of w lt)
          (AllSplit-part value_items n (ids w) rows (all w) (round.sent_chunks w) p i
            (split_of w lt) s)).0
        s

  -- The book of a worker has the part of each edge of each worker.
  pub edge_entry :
      (r w j i p : ℕ)
      → r < n
      → w < n
      → p < n
      → get_elem? (ids w) j ≡ some i
      → get_elem? (all w) j ≡ some p
      → (book : PartitionBook) × ((round.group.managers r).partition_book ≡ some book)
        × (length book ≡ m)
        × (get_elem? book i ≡ some p)
  edge_entry r w j i p lt lt' lt_p at at' =
      let only = λ (v q : ℕ) (lt_v : v < n) (s : IsSent (round.sent_chunks v) q i).
        let (j', at_i, at_q) = sent_edge v q i lt_v s in
        let (same, same') = unique v w j' j i lt_v lt' at_i at in
        some_inj (sym at_q ∙ ap₂ (λ x y. get_elem? (all x) y) same same' ∙ at') in
      let (book, there, len, entry, _) =
        new_group-books_agree torch n m managers round.sent_chunks round.steps round.group r i p
          (AreRanked-ArePlaced torch n m true managers round.sent_chunks ranked) round.reached
          round.finished lt (below w j i lt' at) only in
      let rows = value_items {Row = Row} (edge_columns (with_ids (columns w) (ids w))) in
      (
        book,
        there,
        len,
        entry w p lt' (
            (AllSplit-IsSent value_items n (ids w) rows (all w) (round.sent_chunks w) p i
                (split_of w lt') lt_p).1
              (j, at, at')),
      )

  pub edge_book :
      (r : ℕ)
      → r < n
      → (book : PartitionBook) × ((round.group.managers r).partition_book ≡ some book)
        × (length book ≡ m)
  edge_book r lt =
      new_group-has_books n true torch m managers round.sent_chunks round.steps round.group
        (AreRanked-ArePlaced torch n m true managers round.sent_chunks ranked)
        (λ w c res lt' at. (split_of w lt').chunk_sizes c res at)
        (λ w p i lt' s. let (j, at, _) = sent_edge w p i lt' s in below w j i lt' at) round.reached
        refl r lt

  values_weigh :
      (f : Value Row → ℕ) (r : ℕ)
      → weigh f (round.group.managers r).cur_part_val_list
        ≡ total n (λ w. weigh (sent f r) (round.sent_chunks w))
  values_weigh f r =
      new_group-values_kept torch n m true managers round.sent_chunks f r round.steps round.group
        (AreRanked-ArePlaced torch n m true managers round.sent_chunks ranked) round.reached
        round.finished

  -- The edges of the values of the part `r` are those whose part it is.
  pub edge_values :
      (f : ℕ × (ℕ × ℕ) → ℕ) (r : ℕ)
      → r < n
      → weigh
          (λ v. weigh (edge_weight f) (value_items v))
          (round.group.managers r).cur_part_val_list
        ≡ total n
            (λ w. weigh f (select (edge_rows (with_ids (columns w) (ids w))) (in_part r (all w))))
  edge_values f r lt =
      values_weigh (λ v. weigh (edge_weight f) (value_items v)) r
      ∙ total_same n _ _ (λ w lt_w.
        weigh-given value_items (edge_weight f) r (round.sent_chunks w)
        ∙ ap (weigh (edge_weight f)) (
            (split_of w lt_w).all_items r lt
            ∙ select-map inl (edge_rows (with_ids (columns w) (ids w))) (in_part r (all w)))
        ∙ weigh-map-inl Row f
            (select (edge_rows (with_ids (columns w) (ids w))) (in_part r (all w))))

  pub edge_values_aligned :
      (r : ℕ) → r < n → weigh misaligned (round.group.managers r).cur_part_val_list ≡ 0
  edge_values_aligned r lt =
      values_weigh misaligned r
      ∙ total_zero n _ (λ w lt_w.
        weigh_zero (sent misaligned r) (round.sent_chunks w)
          (λ c res at. none_misaligned w lt_w c res at (get_elem? res r) refl))
    where
      none_misaligned :
          (w : ℕ) (lt_w : w < n) (c : ℕ) (res : Results (Value Row))
          → get_elem? (round.sent_chunks w) c ≡ some res
          → (o : Option (Option (Value Row) × List ℕ)) → get_elem? res r ≡ o
          → ◌≡◌ {A = ℕ} (elim o [ none ↦ 0 | some (val, is) ↦ option_weight misaligned val ]) 0
      none_misaligned w lt_w c res at none e = refl
      none_misaligned w lt_w c res at (some (none, is)) e = refl
      none_misaligned w lt_w c res at (some (some v, is)) e =
          AreAligned-misaligned v ((round.sends w lt_w).aligned c r res (some v) is at e)

  -- If some worker has an edge, every part gets a value.
  pub some_value :
      (r w : ℕ)
      → r < n
      → w < n
      → 0 < length (ids w)
      → ((j p : ℕ) → get_elem? (all w) j ≡ some p → p < n)
      → 0 < length (round.group.managers r).cur_part_val_list
  some_value r w lt lt_w some_edge parts_below =
      let rows = value_items {Row = Row} (edge_columns (with_ids (columns w) (ids w))) in
      let (i, at) = get_elem?-lt (ids w) 0 some_edge in
      let (p, at') = get_elem?-lt (all w) 0 (
        omega (
          arith,
          some_edge,
          (round.sends w lt_w).sized,
          ap (λ l. length l) (some_inj (sym (round.sends w lt_w).read ∙ read w lt_w)),
        )) in
      let s =
        (AllSplit-IsSent value_items n (ids w) rows (all w) (round.sent_chunks w) p i
            (split_of w lt_w) (parts_below 0 p at')).1
          (0, at, at') in
      let (x, at_r) =
        get_elem?-lt s.res_list r
          (omega (arith, (split_of w lt_w).chunk_sizes s.c s.res_list s.in_chunks, lt)) in
      let one =
        value_there (x.0)
          ((round.sends w lt_w).aligned s.c r s.res_list x.0 x.1 s.in_chunks at_r) in
      let there : sent {V = Value Row} (λ v. 1) r s.res_list ≡ 1 =
        ap (λ o. elim o [ none ↦ 0 | some (val, is) ↦ option_weight (λ (v : Value Row). 1) val ])
          at_r
        ∙ one in
      omega (
        arith,
        there,
        weigh_at (sent (λ v. 1) r) (round.sent_chunks w) s.c s.res_list s.in_chunks,
        total-le n w (λ v. weigh (sent {V = Value Row} (λ x. 1) r) (round.sent_chunks v)) lt_w,
        values_weigh (λ v. 1) r,
        weigh_ones (round.group.managers r).cur_part_val_list,
      )
    where
      value_there :
          (val : Option (Value Row)) → AreAligned val → option_weight (λ (v : Value Row). 1) val ≡ 1
      value_there none h = absurd h
      value_there (some v) h = refl

      weigh_ones : (values : List (Value Row)) → weigh (λ v. 1) values ≡ length values
      weigh_ones [] = refl
      weigh_ones (v ∷ values) = omega (arith, weigh_ones values)
