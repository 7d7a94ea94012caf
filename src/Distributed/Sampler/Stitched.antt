-- ===== src/Distributed/Sampler/Stitched.antt =====
-- A one-hop sample that partitions answer and that is stitched, against the neighbors of each seed.
use mathlib.Core.Path.{subst}
use mathlib.Core.List.{append-nil}
use graphlearn_for_pytorch.Prelude.{
  sum, ℕ, ◌-◌, ◌<◌, ◌≡◌, inl, inr, refl, ap, sym, ◌∙◌, Bool, true, false, ◌||◌, Option, none, some,
  List, [], ◌∷◌, ◌++◌, map, ◌==◌, ==_iff, ==_refl, ==_ne, length, range, arith, Bool-cases,
  get_elem?, get_elem?-lt, length-map, length-range_from,
}
use graphlearn_for_pytorch.Torch.{
  Torch, gather, length-gather, AllBelow, AllBelow-get, contains, length-select_same,
}
use graphlearn_for_pytorch.Sampler.Base.{EdgeId, NeighborOutput}
use graphlearn_for_pytorch.Partition.Chunks.{in_part}
use graphlearn_for_pytorch.Partition.Edges.{contains-ids}
use graphlearn_for_pytorch.Distributed.Feature.{select_partition}
use graphlearn_for_pytorch.Distributed.Feature.Lookup.{chosen, places, select_partition_lem}
use graphlearn_for_pytorch.Distributed.Feature.Stitched.{length-pos_of_contains}
use graphlearn_for_pytorch.Distributed.Sampler.{
  DistNeighborSampler, PartialNeighborOutput, stitch_sample_results, ask, partition_loop, cumsum,
  first_output, complete, visit, dist_one_hop,
}
use graphlearn_for_pytorch.Distributed.Sampler.Slots.{
  flat, part, nbrs_at, Covers, contains-append, contains-visit, nums, last-cumsum, select_all,
  map-append, all_counted, all_copied, edges_copied,
}

last_count : (ns : List ℕ) → 0 < length ns → get_elem? (cumsum 0 ns) (length ns - 1) ≡ some (sum ns)
last_count [] pos = absurd (omega (arith, pos))
last_count (n ∷ ns) pos =
    let e : length (n ∷ ns) - 1 ≡ length ns = omega arith in
    ap (get_elem? (cumsum 0 (n ∷ ns))) e ∙ last-cumsum 0 n ns ∙ ap some (omega arith)

module _ (torch : Torch) (with_edge : Bool) (found : ℕ → List (ℕ × EdgeId))
    (srcs partition_ids : List ℕ) (sized : length partition_ids ≡ length srcs) where
  abbrev result_of : ℕ → PartialNeighborOutput
  result_of = part torch with_edge found srcs partition_ids sized

  abbrev counts : List ℕ
  counts = nums torch with_edge found srcs partition_ids sized

  abbrev CoveredBy : List ℕ → Type 0
  CoveredBy = Covers torch with_edge found srcs partition_ids sized

  -- The number of all items: there is a seed.
  count_of : 0 < length srcs → get_elem? (cumsum 0 counts) (length srcs - 1) ≡ some (sum counts)
  count_of pos =
      let size : length counts ≡ length srcs =
        length-map (range (length srcs)) (λ i. length (found i))
        ∙ length-range_from 0 (length srcs) in
      ap (λ n. get_elem? (cumsum 0 counts) (n - 1)) (sym size)
      ∙ last_count counts (omega (arith, size, pos))

  stitched :
      (ps : List ℕ)
      → 0 < length srcs
      → CoveredBy ps
      → stitch_sample_results torch with_edge srcs (map result_of ps)
        ≡ some (flat with_edge found (range (length srcs)))
  unfolding stitch_sample_results
  stitched ps pos covers =
      let nbrs =
        all_copied torch with_edge found srcs partition_ids sized (λ out. some out.nbr)
          (nbrs_at torch with_edge found srcs partition_ids sized) (λ is. refl)
          (λ i. sym (length-map (found i) (λ e. e.0))) ps 0 covers in
      rw
        (
          all_counted torch with_edge found srcs partition_ids sized ps covers,
          count_of pos,
          torch.zeros_law (sum counts),
          nbrs,
          edges_copied torch found srcs partition_ids sized with_edge ps covers,
        )
        refl

  abbrev asked_of : ℕ → List ℕ
  asked_of pidx = chosen srcs partition_ids pidx

  module _ (local : List ℕ → ℕ → Option NeighborOutput)
      (request : ℕ → List ℕ → ℕ → Option NeighborOutput) (me num_nbr : ℕ)
      (answers : (pidx : ℕ)
        → (length (asked_of pidx) == 0) ≡ false
        → ask torch local request (pidx == me) pidx (asked_of pidx) num_nbr
          ≡ some (flat with_edge found (places srcs partition_ids pidx))) where
    -- The partitions of which something is asked, the own one and the others.
    record Asked (pidxs : List ℕ) : Type 0 where
      own : List ℕ
      remote : List ℕ
      returns :
          partition_loop torch local request me srcs partition_ids num_nbr pidxs
          ≡ some (map result_of own, map result_of remote)
      asked :
          (t : ℕ)
          → contains pidxs t ≡ true
          → (length (asked_of t) == 0) ≡ false
          → contains (own ++ remote) t ≡ true
      own_is : (t : ℕ) → contains own t ≡ true → t ≡ me

    chosen_there :
        (pidx : ℕ)
        → select_partition torch srcs partition_ids pidx
          ≡ some (asked_of pidx, places srcs partition_ids pidx)
    chosen_there pidx =
        select_partition_lem torch {Row = ℕ} (λ id. none) srcs partition_ids sized pidx

    skip_empty :
        (pidx : ℕ) (pidxs : List ℕ)
        → (length (asked_of pidx) == 0) ≡ true
        → Asked pidxs
        → Asked (pidx ∷ pidxs)
    skip_empty pidx pidxs e rest = record {
      own = rest.own;
      remote = rest.remote;
      returns = unfold partition_loop in rw (chosen_there pidx, e) rest.returns;
      asked = λ t h used. rest.asked t (other_one pidx t pidxs e used h) used;
      own_is = rest.own_is;
    }
      where
        other_one :
            (pidx t : ℕ) (pidxs : List ℕ)
            → (length (asked_of pidx) == 0) ≡ true
            → (length (asked_of t) == 0) ≡ false
            → contains (pidx ∷ pidxs) t ≡ true
            → contains pidxs t ≡ true
        other_one pidx t pidxs e used h = elim (Bool-cases (pidx == t)) [
          | inl same ↦
              let clash : true ≡ false =
                sym e ∙ ap (λ p. length (asked_of p) == 0) ((==_iff pidx t).0 same) ∙ used in
              absurd cc
          | inr differ ↦ ground (arith, differ, h)
        ]

    contains_middle :
        (xs ys : List ℕ) (p t : ℕ) → contains (xs ++ p ∷ ys) t ≡ (p == t || contains (xs ++ ys) t)
    contains_middle xs ys p t =
        ground (arith, contains-append xs (p ∷ ys) t, contains-append xs ys t)

    ask_own :
        (pidx : ℕ) (pidxs : List ℕ)
        → (length (asked_of pidx) == 0) ≡ false
        → (pidx == me) ≡ true
        → Asked pidxs
        → Asked (pidx ∷ pidxs)
    ask_own pidx pidxs used same rest = record {
      own = pidx ∷ rest.own;
      remote = rest.remote;
      returns =
          unfold partition_loop in
          rw (chosen_there pidx, used, answers pidx used, rest.returns, same) refl;
      asked = λ t h used'. ground (arith, rest.asked t, h, used');
      own_is = λ t h. elim (Bool-cases (pidx == t)) [
        | inl e ↦ sym ((==_iff pidx t).0 e) ∙ (==_iff pidx me).0 same
        | inr e ↦ rest.own_is t (subst (λ b. (b || contains rest.own t) ≡ true) e h)
      ];
    }

    ask_remote :
        (pidx : ℕ) (pidxs : List ℕ)
        → (length (asked_of pidx) == 0) ≡ false
        → (pidx == me) ≡ false
        → Asked pidxs
        → Asked (pidx ∷ pidxs)
    ask_remote pidx pidxs used other rest = record {
      own = rest.own;
      remote = pidx ∷ rest.remote;
      returns =
          unfold partition_loop in
          rw (chosen_there pidx, used, answers pidx used, rest.returns, other) refl;
      asked = λ t h used'.
          contains_middle rest.own rest.remote pidx t ∙ ground (arith, rest.asked t, h, used');
      own_is = rest.own_is;
    }

    loop_lem : (pidxs : List ℕ) → Asked pidxs
    loop_lem [] = record {
      own = [];
      remote = [];
      returns = unfold partition_loop in refl;
      asked = λ t h. absurd cc;
      own_is = λ t h. absurd cc;
    }
    loop_lem (pidx ∷ pidxs) = elim (Bool-cases (length (asked_of pidx) == 0)) [
      | inl empty ↦ skip_empty pidx pidxs empty (loop_lem pidxs)
      | inr used ↦ elim (Bool-cases (pidx == me)) [
        | inl same ↦ ask_own pidx pidxs used same (loop_lem pidxs)
        | inr other ↦ ask_remote pidx pidxs used other (loop_lem pidxs)
      ]
    ]

    -- A partition that holds a seed is asked for it.
    used_part : (j t : ℕ) → get_elem? partition_ids j ≡ some t → (length (asked_of t) == 0) ≡ false
    used_part j t at =
        let there : contains (places srcs partition_ids t) j ≡ true =
          rw (← sized) (contains-ids partition_ids t j t at ∙ ==_refl t) in
        let as_many =
          length-select_same (range (length srcs)) srcs (in_part t partition_ids)
            (length-range_from 0 (length srcs)) in
        ==_ne (length (asked_of t)) 0 (λ e.
          absurd (
            omega
              (arith, e, as_many, length-pos_of_contains (places srcs partition_ids t) j there)))

    all_covered :
        (num : ℕ)
        → me < num
        → AllBelow num partition_ids
        → (a : Asked (visit torch local request me num)) → CoveredBy (a.own ++ a.remote)
    all_covered num lt valid a j t at =
        a.asked t (contains-visit me num t lt (AllBelow-get num partition_ids j t valid at))
          (used_part j t at)

    -- Where no other partition is asked, the own result is that of all seeds.
    own_only :
        (own : List ℕ)
        → 0 < length srcs
        → CoveredBy own
        → ((t : ℕ) → contains own t ≡ true → t ≡ me)
        → first_output torch local request (map result_of own)
          ≡ some (flat with_edge found (range (length srcs)))
    own_only [] pos covers own_is =
        let (t, at) = get_elem?-lt partition_ids 0 (omega (arith, pos, sized)) in
        let clash : false ≡ true = covers 0 t at in absurd cc
    own_only (p ∷ own) pos covers own_is =
        let mine : p ≡ me = own_is p (rw (==_refl p) refl) in
        ap (λ is. some (flat with_edge found is))
          (select_all p (range (length srcs)) partition_ids
            (length-range_from 0 (length srcs) ∙ sym sized)
            (λ j t at. own_is t (covers j t at) ∙ sym mine))

    finished :
        (own remote : List ℕ)
        → 0 < length srcs
        → CoveredBy (own ++ remote)
        → ((t : ℕ) → contains own t ≡ true → t ≡ me)
        → complete torch local request with_edge srcs (map result_of own, map result_of remote)
          ≡ some (flat with_edge found (range (length srcs)))
    finished own [] pos covers own_is =
        own_only own pos (subst CoveredBy (append-nil own) covers) own_is
    finished own (p ∷ remote) pos covers own_is =
        ap (stitch_sample_results torch with_edge srcs)
          (sym (map-append result_of own (p ∷ remote)))
        ∙ stitched (own ++ p ∷ remote) pos covers

module _ (torch : Torch) (self : DistNeighborSampler) (local : List ℕ → ℕ → Option NeighborOutput)
    (request : ℕ → List ℕ → ℕ → Option NeighborOutput) where
  -- Let `found i` be the neighbors for the seed at place `i`, with their edges, as the partition that
  -- holds the seed answers them. If the book sends each seed to one of the partitions, of which the
  -- own is one, and each partition that holds a seed answers with the neighbors of each of its seeds,
  -- in their order, `_sample_one_hop` for at least one seed returns the answered neighbors, counts and
  -- edge ids in the order of the seeds.
  pub dist_one_hop-flat :
      (srcs partition_ids : List ℕ) (num_nbr : ℕ) (found : ℕ → List (ℕ × EdgeId))
      → 0 < length srcs
      → self.partition_idx < self.num_partitions
      → gather self.node_pb srcs ≡ some partition_ids
      → AllBelow self.num_partitions partition_ids
      → ((pidx : ℕ)
          → (length (chosen srcs partition_ids pidx) == 0) ≡ false
          → ask torch local request
              (pidx == self.partition_idx)
              pidx
              (chosen srcs partition_ids pidx)
              num_nbr
            ≡ some (flat self.with_edge found (places srcs partition_ids pidx)))
      → dist_one_hop torch local request self srcs num_nbr
        ≡ some (flat self.with_edge found (range (length srcs)))
  unfolding dist_one_hop
  dist_one_hop-flat srcs partition_ids num_nbr found pos lt read valid answers =
      let sized : length partition_ids ≡ length srcs =
        length-gather self.node_pb srcs partition_ids read in
      let a =
        loop_lem torch self.with_edge found srcs partition_ids sized local request
          self.partition_idx num_nbr answers
          (visit torch local request self.partition_idx self.num_partitions) in
      rw (torch.index_law self.node_pb srcs, read, a.returns)
        (finished torch self.with_edge found srcs partition_ids sized local request
          self.partition_idx num_nbr answers a.own a.remote pos
          (all_covered torch self.with_edge found srcs partition_ids sized local request
            self.partition_idx num_nbr answers self.num_partitions lt valid a)
          a.own_is)

  none_asked :
      (num_nbr : ℕ) (pidxs : List ℕ)
      → partition_loop torch local request self.partition_idx [] [] num_nbr pidxs ≡ some ([], [])
  unfolding partition_loop
  none_asked num_nbr [] = refl
  none_asked num_nbr (pidx ∷ pidxs) =
      rw (select_partition_lem torch {Row = ℕ} (λ id. none) [] [] refl pidx)
        (none_asked num_nbr pidxs)

  -- For no seeds, as after a hop that finds no new node, `_sample_one_hop` raises.
  pub dist_one_hop-no_seeds :
      (num_nbr : ℕ) → dist_one_hop torch local request self [] num_nbr ≡ none
  unfolding dist_one_hop
  dist_one_hop-no_seeds num_nbr =
      rw
        (
          torch.index_law self.node_pb [],
          none_asked num_nbr (visit torch local request self.partition_idx self.num_partitions),
        )
        refl
