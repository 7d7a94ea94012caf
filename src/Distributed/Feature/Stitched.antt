-- ===== src/Distributed/Feature/Stitched.antt =====
-- `async_get` as a whole: the stitched rows are the rows of the requested ids.
use graphlearn_for_pytorch.Prelude.{
  ℕ, zero, suc, ◌+◌, ◌<◌, ◌≤◌, ◌≡◌, refl, sym, ◌∙◌, true, false, ◌&&◌, not, Option, some, List, [],
  ◌∷◌, map, arith, ◌==◌, ==_iff, if◌then◌else◌, inl, inr, Bool-cases, length, get_elem?,
  get_elem?-lt, replicate, range, range_from, Option-cases, length-replicate, length-map,
  length-range_from, lt-length_of_get, eq_of_get, length-le_of_none, get_elem?-none, get_elem?-map,
}
use graphlearn_for_pytorch.Torch.{
  Torch, gather, gather-in_range, AllBelow, AllBelow-get, contains, length-select_same,
  get_elem?-gather,
}
use graphlearn_for_pytorch.Data.Feature.{Feature, cpu_get, row_at}
use graphlearn_for_pytorch.Partition.Chunks.{in_part}
use graphlearn_for_pytorch.Partition.Edges.{contains-ids}
use graphlearn_for_pytorch.Distributed.Feature.{
  PartialFeature, local_selecting_get, remote_loop, request_part, remote_selecting_get,
  stitch_remotes, stitch, async_get,
}
use graphlearn_for_pytorch.Distributed.Feature.Lookup.{
  chosen, places, select_partition_lem, Wrote, write_part, answer, sized,
}

pub length-pos_of_contains : (xs : List ℕ) (j : ℕ) → contains xs j ≡ true → 0 < length xs
length-pos_of_contains [] j h = cc
length-pos_of_contains (x ∷ xs) j h = omega arith

pub contains-range_from : (s n t : ℕ) → s ≤ t → t < s + n → contains (range_from s n) t ≡ true
contains-range_from s zero t le lt = absurd (omega arith)
contains-range_from s (suc n) t le lt = ground (arith, contains-range_from (suc s) n t)

module _ (torch : Torch) {Row : Type 0} (F : ℕ → Row) (pb ids partition_ids : List ℕ)
    (stores : ℕ → Feature Row) (me : ℕ) (read : gather pb ids ≡ some partition_ids)
    (holds : (id pidx : ℕ)
      → get_elem? pb id ≡ some pidx
      → row_at (stores pidx) id ≡ some (F id)) where
  abbrev parts : ℕ → List ℕ
  parts = chosen ids partition_ids

  abbrev ask : ℕ → List ℕ → Option (List Row)
  ask pidx is = cpu_get torch (stores pidx) is

  abbrev ToWrite : (pidx : ℕ) (feat : List Row) → length feat ≡ length ids → Type 0
  ToWrite pidx feat h =
      Wrote torch (λ id. some (F id)) ids partition_ids
        (sized torch F pb ids partition_ids stores me read holds) pidx (map F (parts pidx)) feat

  write : (pidx : ℕ) (feat : List Row) (h : length feat ≡ length ids) → ToWrite pidx feat h
  write pidx feat h =
      write_part torch (λ id. some (F id)) ids partition_ids
        (sized torch F pb ids partition_ids stores me read holds) pidx (map F (parts pidx)) feat h
        (length-map (parts pidx) F, λ k id at. get_elem?-map F (parts pidx) k id at)

  -- The rows after the answers of some partitions have been written over `feat`.
  record Stitched (pidxs : List ℕ) (remotes : List (PartialFeature Row)) (feat : List Row)
      : Type 0 where
    result : List Row
    returns : stitch_remotes torch feat remotes ≡ some result
    size : length result ≡ length ids
    entry :
        (j t id : ℕ)
        → get_elem? partition_ids j ≡ some t
        → get_elem? ids j ≡ some id
        → get_elem? result j
          ≡ (if contains pidxs t && not (t == me) then some (F id) else get_elem? feat j)

  -- A partition without ids answers nothing that was asked.
  not_empty :
      (pidx j t : ℕ)
      → (length (parts pidx) == 0) ≡ true
      → get_elem? partition_ids j ≡ some t
      → (t == pidx) ≡ false
  not_empty pidx j t e at = elim (Bool-cases (t == pidx)) [
    | inr other ↦ other
    | inl same ↦
        let whole = sized torch F pb ids partition_ids stores me read holds in
        let test : contains (places ids partition_ids pidx) j ≡ (t == pidx) =
          rw (← whole) (contains-ids partition_ids pidx j t at) in
        let as_many =
          length-select_same (range (length ids)) ids (in_part pidx partition_ids)
            (length-range_from 0 (length ids)) in
        let none_there = (==_iff (length (parts pidx)) 0).0 e in
        absurd
          (omega (arith, length-pos_of_contains (places ids partition_ids pidx) j (test ∙ same)))
  ]

  abbrev rest_of : List ℕ → Option (List (PartialFeature Row))
  rest_of pidxs = remote_loop torch ask me ids partition_ids pidxs

  skip_self :
      (pidx : ℕ) (pidxs : List ℕ) → (pidx == me) ≡ true → rest_of (pidx ∷ pidxs) ≡ rest_of pidxs
  unfolding remote_loop
  skip_self pidx pidxs e = rw e

  ask_other :
      (pidx : ℕ) (pidxs : List ℕ)
      → (pidx == me) ≡ false
      → rest_of (pidx ∷ pidxs)
        ≡ request_part torch ask pidx (parts pidx) (places ids partition_ids pidx) (rest_of pidxs)
  unfolding remote_loop
  ask_other pidx pidxs e =
      let select =
        select_partition_lem torch (λ id. some (F id)) ids partition_ids
          (sized torch F pb ids partition_ids stores me read holds) pidx in
      rw (e, select)

  record Remote (pidxs : List ℕ) : Type 0 where
    remotes : List (PartialFeature Row)
    returns : remote_loop torch ask me ids partition_ids pidxs ≡ some remotes
    stitched : (feat : List Row) → length feat ≡ length ids → Stitched pidxs remotes feat

  request_nothing :
      (pidx : ℕ) (is index : List ℕ) (later : Option (List (PartialFeature Row)))
      → (length is == 0) ≡ true
      → request_part torch ask pidx is index later ≡ later
  unfolding request_part
  request_nothing pidx is index later e = rw e

  request_some :
      (pidx : ℕ) (index : List ℕ) (later : List (PartialFeature Row))
      → (length (parts pidx) == 0) ≡ false
      → request_part torch ask pidx (parts pidx) index (some later)
        ≡ some ((map F (parts pidx), index) ∷ later)
  unfolding request_part
  request_some pidx index later e =
      rw (e, answer torch F pb ids partition_ids stores me read holds pidx)

  -- A partition of which nothing is asked.
  skipped :
      (pidx : ℕ) (pidxs : List ℕ) (rest : Remote pidxs)
      → rest_of (pidx ∷ pidxs) ≡ some rest.remotes
      → ((j t : ℕ)
          → get_elem? partition_ids j ≡ some t
          → (contains pidxs t && not (t == me)) ≡ (contains (pidx ∷ pidxs) t && not (t == me)))
      → Remote (pidx ∷ pidxs)
  skipped pidx pidxs rest returns same = record {
    remotes = rest.remotes;
    returns = returns;
    stitched = λ feat h.
        let s = rest.stitched feat h in
        record {
          result = s.result;
          returns = s.returns;
          size = s.size;
          entry = λ j t id a b. rw (← same j t a) (s.entry j t id a b);
        };
  }

  -- A partition that answers.
  asked :
      (pidx : ℕ) (pidxs : List ℕ) (rest : Remote pidxs)
      → (pidx == me) ≡ false
      → rest_of (pidx ∷ pidxs)
        ≡ some ((map F (parts pidx), places ids partition_ids pidx) ∷ rest.remotes)
      → Remote (pidx ∷ pidxs)
  asked pidx pidxs rest other returns = record {
    remotes = (map F (parts pidx), places ids partition_ids pidx) ∷ rest.remotes;
    returns = returns;
    stitched = λ feat h.
        let w = write pidx feat h in
        let s = rest.stitched w.after w.size in
        record {
          result = s.result;
          returns = unfold stitch_remotes in rw w.returns s.returns;
          size = s.size;
          entry = λ j t id a b. ground (arith, s.entry j t id a b, w.entry j t id a b);
        };
  }

  remote_loop_lem : (pidxs : List ℕ) → Remote pidxs
  remote_loop_lem [] =
      unfold remote_loop stitch_remotes in
      record {
        remotes = [];
        returns = refl;
        stitched = λ feat h. record {
          result = feat;
          returns = refl;
          size = h;
          entry = λ j t id a b. refl;
        };
      }
  remote_loop_lem (pidx ∷ pidxs) =
      let rest = remote_loop_lem pidxs in
      elim (Bool-cases (pidx == me)) [
        | inl self ↦
            skipped pidx pidxs rest (skip_self pidx pidxs self ∙ rest.returns)
              λ j t at. ground arith
        | inr other ↦ elim (Bool-cases (length (parts pidx) == 0)) [
          | inl empty ↦
              skipped pidx pidxs rest
                (ask_other pidx pidxs other
                  ∙ request_nothing pidx (parts pidx) _ _ empty
                  ∙ rest.returns)
                λ j t at. ground (arith, not_empty pidx j t empty at)
          | inr full ↦ asked pidx pidxs rest other (
              ask_other pidx pidxs other
              ∙ (rw rest.returns
                  (request_some pidx (places ids partition_ids pidx) rest.remotes full)))
        ]
      ]

all_written :
    {Row : Type 0} (F : ℕ → Row) (n me j t id : ℕ)
    → t < n
    → (result after blank : Option Row)
    → result ≡ (if contains (range n) t && not (t == me) then some (F id) else after)
    → after ≡ (if t == me then some (F id) else blank)
    → result ≡ some (F id)
all_written F n me j t id lt result after blank r a = ground (arith, contains-range_from 0 n t)

-- `F` gives the row of every id. Where each partition stores the rows of the ids that the book
-- sends to it, and the book covers the requested ids with valid partitions, a lookup from any
-- partition returns the rows of the ids, in the order of the request.
pub async_get-eq-map :
    (torch : Torch) {Row : Type 0} (F : ℕ → Row) (stores : ℕ → Feature Row) (zero_row : Row)
    (num_partitions me : ℕ) (pb ids : List ℕ)
    → ((id pidx : ℕ) → get_elem? pb id ≡ some pidx → row_at (stores pidx) id ≡ some (F id))
    → AllBelow num_partitions pb
    → AllBelow (length pb) ids
    → async_get torch
        (λ pidx is. cpu_get torch (stores pidx) is)
        zero_row
        (record {
          num_partitions = num_partitions;
          partition_idx = me;
          local_feature = stores me;
          feature_pb = pb;
        })
        ids
      ≡ some (map F ids)
unfolding async_get remote_selecting_get local_selecting_get stitch
async_get-eq-map torch F stores zero_row n me pb ids holds valid covered =
    let (partition_ids, read) = gather-in_range pb ids covered in
    let whole = sized torch F pb ids partition_ids stores me read holds in
    let remote = remote_loop_lem torch F pb ids partition_ids stores me read holds (range n) in
    let blank = replicate (length ids) zero_row in
    let w =
      write torch F pb ids partition_ids stores me read holds me blank
        (length-replicate (length ids) zero_row) in
    let s = remote.stitched w.after w.size in
    let select = select_partition_lem torch (λ id. some (F id)) ids partition_ids whole me in
    let local = answer torch F pb ids partition_ids stores me read holds me in
    let same = eq_of_get s.result (map F ids) λ j. elim (Option-cases (get_elem? ids j)) [
      | inl out ↦
          let above = length-le_of_none ids j out in
          get_elem?-none s.result j (omega (arith, s.size))
          ∙ sym (get_elem?-none (map F ids) j (omega (arith, length-map ids F)))
      | inr (id, at) ↦
          let (t, part) =
            get_elem?-lt partition_ids j (omega (arith, lt-length_of_get ids j id at)) in
          let owned = sym (get_elem?-gather pb ids partition_ids j id read at) ∙ part in
          all_written F n me j t id (AllBelow-get n pb id t valid owned) (get_elem? s.result j)
            (get_elem? w.after j) (get_elem? blank j) (s.entry j t id part at)
            (w.entry j t id part at)
          ∙ sym (get_elem?-map F ids j id at)
    ] in
    simp (torch.index_law, read, remote.returns, select, local, w.returns, s.returns, same)
