-- ===== src/Distributed/Partitioner/Covered.antt =====
-- What all the chunks of a worker have for each part.
use graphlearn_for_pytorch.Prelude.{
  ℕ, zero, suc, ◌+◌, ◌-◌, ◌*◌, ◌/◌, ◌≤◌, ◌<◌, min, ◌≡◌, refl, ap, sym, ◌∙◌, Bool, ◌⊎◌, inl, inr,
  get_elem?-append_left, get_elem?-append_right, true, false, drop_all, drop-add, Option, some,
  List, [], ◌∷◌, ◌++◌, arith, ◌==◌, length, get_elem?, take, drop, length-map, length-append,
  some_inj,
}
use mathlib.Core.List.{map-append}
use mathlib.Core.Path.{subst}
use graphlearn_for_pytorch.Torch.{Torch, select}
use graphlearn_for_pytorch.Utils.Common.{Selector, Selects}
use graphlearn_for_pytorch.Partition.Chunks.{in_part}
use graphlearn_for_pytorch.Partition.Edges.{ceil_mul}
use graphlearn_for_pytorch.Distributed.Partitioner.{Results}
use graphlearn_for_pytorch.Distributed.Partitioner.Chunked.{
  PartitionFn, all_results, partition_by_chunk, option_items, HasRows, GivesParts, AllSplit,
}
use graphlearn_for_pytorch.Distributed.Partitioner.Split.{end_of, chunk_splits}

enough_left :
    (m start c rounds : ℕ)
    → m ≤ start + suc rounds * c
    → m ≤ start + (min m (start + c) - start) + rounds * c
enough_left m start c rounds h = grind arith

module _ {A : Type 0} where
  select-nothing : (xs : List A) → select xs [] ≡ []
  select-nothing [] = refl
  select-nothing (x ∷ xs) = refl

  select-split :
      (xs : List A) (m m' : List Bool) (k : ℕ)
      → length m ≡ k
      → select (take k xs) m ++ select (drop k xs) m' ≡ select xs (m ++ m')
  select-split xs [] m' zero h = refl
  select-split xs [] m' (suc k) h = absurd (omega arith)
  select-split xs (b ∷ m) m' zero h = absurd (omega arith)
  select-split [] (b ∷ m) m' (suc k) h = refl
  select-split (x ∷ xs) (true ∷ m) m' (suc k) h =
      ap (λ l. x ∷ l) (select-split xs m m' k (omega arith))
  select-split (x ∷ xs) (false ∷ m) m' (suc k) h = select-split xs m m' k (omega arith)

select_on :
    {A : Type 0} (xs : List A) (start k p : ℕ) (ps rest : List ℕ) (as' bs' : List A)
    → length ps ≡ k
    → as' ≡ select (take k (drop start xs)) (in_part p ps)
    → bs' ≡ select (drop (start + k) xs) (in_part p rest)
    → as' ++ bs' ≡ select (drop start xs) (in_part p (ps ++ rest))
select_on xs start k p ps rest as' bs' len e e' =
    rw (e, e', drop-add start k xs, map-append (λ q. q == p) ps rest)
      (select-split (drop start xs) (in_part p ps) (in_part p rest) k
        (length-map ps (λ q. q == p) ∙ len))

all_of :
    {A : Type 0} (Q : A → Type 0) (x : A) (xs : List A)
    → Q x
    → ((i : ℕ) (y : A) → get_elem? xs i ≡ some y → Q y)
    → (i : ℕ) (y : A) → get_elem? (x ∷ xs) i ≡ some y
    → Q y
all_of Q x xs h h' zero y e = subst Q (some_inj e) h
all_of Q x xs h h' (suc i) y e = h' i y e

both_give :
    (P : ℕ → ℕ → Type 0) (start k : ℕ) (ps rest : List ℕ)
    → length ps ≡ k
    → ((j p : ℕ) → get_elem? ps j ≡ some p → P (start + j) p)
    → ((j p : ℕ) → get_elem? rest j ≡ some p → P (start + k + j) p)
    → (j p : ℕ) → get_elem? (ps ++ rest) j ≡ some p
    → P (start + j) p
both_give P start k ps rest len h h' j p e = elim (lt_or (length ps) j) [
  | inl lt ↦ h j p (sym (get_elem?-append_left ps rest j lt) ∙ e)
  | inr le ↦
      let at : length ps + (j - length ps) ≡ j = omega arith in
      let there : start + k + (j - length ps) ≡ start + j = omega (arith, len) in
      subst (λ i. P i p) there
        (h' (j - length ps) p (
          sym (get_elem?-append_right ps rest (j - length ps))
          ∙ ap (get_elem? (ps ++ rest)) at
          ∙ e))
]
  where
    lt_or : (m j : ℕ) → (j < m) ⊎ (m ≤ j)
    lt_or m j = omega arith

module _ {D Item : Type 0} {sel : Selector D} (items : D → List Item) (selects : Selects sel items)
    (torch : Torch) (n c : ℕ) (val : Option D) (ids : List ℕ) (fn : PartitionFn)
    (P : ℕ → ℕ → Type 0) (gives : GivesParts fn ids P) (rows : HasRows items val (length ids)) where
  -- The rounds from `start` on, when they are enough for the rest of the rows.
  all_splits :
      (rounds start : ℕ)
      → start ≤ length ids
      → length ids ≤ start + rounds * c
      → (parts : List ℕ) × (chunks : List (Results D)) × (length parts ≡ length ids - start)
        × (all_results torch sel n c val ids fn rounds start ≡ some chunks)
        × AllSplit items n (drop start ids) (drop start (option_items items val)) parts chunks
        × ((k p : ℕ) → get_elem? parts k ≡ some p → P (start + k) p)
  unfolding all_results
  all_splits zero start le enough =
      let end_ids = drop_all start ids (omega arith) in
      (
        [],
        [],
        omega arith,
        refl,
        record {
          chunk_sizes = λ i res e. cc;
          all_ids = λ p lt. sym (select-nothing (drop start ids));
          all_items = λ p lt. sym (select-nothing (drop start (option_items items val)));
        },
        λ k p e. cc,
      )
  all_splits (suc rounds) start le enough =
      let k = end_of items selects torch n c val ids fn P gives rows start - start in
      let (ps, res, len, run, split, from) =
        chunk_splits items selects torch n c val ids fn P gives rows start le in
      let (rest, chunks, len', run', splits, from') =
        all_splits rounds (start + k) (omega arith)
          (enough_left (length ids) start c rounds enough) in
      (
        ps ++ rest,
        res ∷ chunks,
        omega (arith, length-append ps rest, len, len'),
        rw (run, run') refl,
        record {
          chunk_sizes = all_of (λ r. length r ≡ n) res chunks split.sized splits.chunk_sizes;
          all_ids = λ p lt.
              select_on ids start k p ps rest _ _ len (split.part_ids p lt) (splits.all_ids p lt);
          all_items = λ p lt.
              select_on (option_items items val) start k p ps rest _ _ len (split.part_items p lt)
                (splits.all_items p lt);
        },
        both_give P start k ps rest len from from',
      )

  loop_runs :
      (m : ℕ)
      → 0 < m
      → partition_by_chunk torch sel n m val ids fn
        ≡ all_results torch sel n m val ids fn ((length ids + m - 1) / m) 0
  unfolding partition_by_chunk
  loop_runs zero h = absurd (omega arith)
  loop_runs (suc d) h = refl

  rounds_enough : (m k : ℕ) → 0 < m → k ≤ 0 + (k + m - 1) / m * m
  rounds_enough zero k h = absurd (omega arith)
  rounds_enough (suc d) k h = omega (arith, ceil_mul k d)

  -- With a chunk size that is not zero: every row is in some chunk.
  pub partition_by_chunk_splits :
      0 < c
      → (parts : List ℕ) × (chunks : List (Results D)) × (partition_by_chunk torch sel n c val ids
            fn
          ≡ some chunks)
        × (length parts ≡ length ids)
        × AllSplit items n ids (option_items items val) parts chunks
        × ((k p : ℕ) → get_elem? parts k ≡ some p → P k p)
  partition_by_chunk_splits pos =
      let (parts, chunks, len, run, splits, from) =
        all_splits ((length ids + c - 1) / c) 0 (omega arith) (rounds_enough c (length ids) pos) in
      (
        parts,
        chunks,
        loop_runs c pos ∙ run,
        omega (arith, len),
        splits,
        λ k p e. subst (λ j. P j p) (plain k) (from k p e),
      )
    where
      plain : (k : ℕ) → 0 + k ≡ k
      plain k = omega arith
