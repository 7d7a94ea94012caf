-- ===== src/Distributed/Sampler/Slots.antt =====
-- The numbers and the items of all seeds when results of partitions are stitched.
use mathlib.Core.Path.{subst}
use native.Mathlib.Nat.{mod-eq_of_lt, add-mod_right}
use graphlearn_for_pytorch.Prelude.{
  sum, ℕ, zero, suc, ◌+◌, ◌-◌, ◌%◌, ◌<◌, ◌≤◌, ◌≡◌, inl, inr, refl, ap, sym, ◌∙◌, Bool, true, false,
  ◌||◌, Option, none, some, List, [], ◌∷◌, ◌++◌, map, ◌==◌, ==_iff, leb, leb→le, if◌then◌else◌,
  length, replicate, range, concat, arith, Bool-cases, Option-cases, get_elem?, length-replicate,
  length-map, length-range_from, lt-length_of_get, eq_of_get, length-le_of_none, get_elem?-none,
  get_elem?-map, get_elem?-range_from,
}
use graphlearn_for_pytorch.Torch.{Torch, AllBelow, contains, select}
use graphlearn_for_pytorch.Sampler.Base.{EdgeId, edge, NeighborOutput}
use graphlearn_for_pytorch.Partition.Chunks.{in_part}
use graphlearn_for_pytorch.Distributed.Feature.Lookup.{places, Wrote, write_part}
use graphlearn_for_pytorch.Distributed.Feature.Stitched.{contains-range_from}
use graphlearn_for_pytorch.Distributed.Sampler.{
  PartialNeighborOutput, cumsum, copy_results, copy_nums, copy_eids,
}
use graphlearn_for_pytorch.Distributed.Sampler.Offsets.{
  Sized, set_all, set_all-sizes, copy_ids_lem, get_elem?-set_all,
}
use graphlearn_for_pytorch.Partition.Edges.{ids_from-AllBelow, contains-ids}

-- The output for some places of the seeds, where `found i` are the neighbors for place `i`, each
-- with the edge to it.
abbrev pub flat : Bool → (ℕ → List (ℕ × EdgeId)) → List ℕ → NeighborOutput
flat with_edge found orders = record {
  nbr = concat (map (λ i. map (λ e. e.0) (found i)) orders);
  nbr_num = map (λ i. length (found i)) orders;
  edge_ids = if with_edge then some (concat (map (λ i. map (λ e. e.1) (found i)) orders)) else none;
}

pub contains-append :
    (xs ys : List ℕ) (t : ℕ) → contains (xs ++ ys) t ≡ (contains xs t || contains ys t)
contains-append [] ys t = refl
contains-append (x ∷ xs) ys t = ground (arith, contains-append xs ys t)

contains-map :
    (f : ℕ → ℕ) (xs : List ℕ) (i : ℕ) → contains xs i ≡ true → contains (map f xs) (f i) ≡ true
contains-map f [] i h = absurd cc
contains-map f (x ∷ xs) i h = elim (Bool-cases (x == i)) [
  | inl e ↦
      let same : x ≡ i = (==_iff x i).0 e in
      subst (λ y. ((f y == f i) || contains (map f xs) (f i)) ≡ true) (sym same) (ground arith)
  | inr e ↦ ground (arith, contains-map f xs i)
]

pub map-append :
    {A B : Type 0} (f : A → B) (xs ys : List A) → map f (xs ++ ys) ≡ map f xs ++ map f ys
map-append f [] ys = refl
map-append f (x ∷ xs) ys = ap (λ zs. f x ∷ zs) (map-append f xs ys)

-- Nothing is left out where every part is the same.
pub select_all :
    (p : ℕ) (xs parts : List ℕ)
    → length xs ≡ length parts
    → ((j t : ℕ) → get_elem? parts j ≡ some t → t ≡ p)
    → select xs (in_part p parts) ≡ xs
select_all p [] parts len h = refl
select_all p (x ∷ xs) [] len h = absurd (omega (arith, len))
select_all p (x ∷ xs) (t ∷ parts) len h =
    rw
      (
        (==_iff t p).1 (h 0 t refl),
        select_all p xs parts (omega (arith, len)) (λ j u at. h (suc j) u at),
      )
      refl

pub get_elem?-range : (n i : ℕ) → i < n → get_elem? (range n) i ≡ some i
get_elem?-range n i lt = get_elem?-range_from 0 n i lt ∙ ap some (omega arith)

map_same : {A B : Type 0} (f g : A → B) (xs : List A) → ((a : A) → f a ≡ g a) → map f xs ≡ map g xs
map_same f g [] h = refl
map_same f g (x ∷ xs) h = rw (h x, map_same f g xs h) refl

visited_at :
    (me num t i : ℕ)
    → i < num
    → (me + i) % num ≡ t
    → contains (map (λ i. (me + i) % num) (range num)) t ≡ true
visited_at me num t i lt e =
    subst (λ u. contains (map (λ i. (me + i) % num) (range num)) u ≡ true) e
      (contains-map (λ i. (me + i) % num) (range num) i
        (contains-range_from 0 num i (omega arith) (omega (arith, lt))))

above : (me t : ℕ) → leb me t ≡ false → t < me
above me t e = ground arith

-- Every partition is visited.
pub contains-visit :
    (me num t : ℕ) → me < num → t < num → contains (map (λ i. (me + i) % num) (range num)) t ≡ true
contains-visit me num t lt lt' = elim (Bool-cases (leb me t)) [
  | inl e ↦
      let le : me ≤ t = leb→le me t e in
      visited_at me num t (t - me) (omega (arith, lt'))
        (ap (λ k. k % num) (omega (arith, le)) ∙ mod-eq_of_lt {n = t} lt')
  | inr e ↦
      let less : t < me = above me t e in
      visited_at me num t (t + num - me) (omega (arith, less, lt)) (
        ap (λ k. k % num) (omega (arith, less, lt))
        ∙ add-mod_right t num
        ∙ mod-eq_of_lt {n = t} lt')
]

-- The last sum is the sum of all.
pub last-cumsum :
    (s n : ℕ) (ns : List ℕ) → get_elem? (cumsum s (n ∷ ns)) (length ns) ≡ some (s + sum (n ∷ ns))
last-cumsum s n [] = ap some (omega arith)
last-cumsum s n (m ∷ ns) = last-cumsum (s + n) m ns ∙ ap some (omega arith)

replicated_sizes :
    {A : Type 0} (ns : List ℕ) (a : A) → map length (map (λ n. replicate n a) ns) ≡ ns
replicated_sizes [] a = refl
replicated_sizes (n ∷ ns) a = rw (length-replicate n a, replicated_sizes ns a) refl

replicate-add :
    {A : Type 0} (n m : ℕ) (a : A) → replicate n a ++ replicate m a ≡ replicate (n + m) a
replicate-add zero m a = ap (λ k. replicate k a) (omega arith)
replicate-add (suc n) m a =
    let e : suc (n + m) ≡ suc n + m = omega arith in
    ap (λ xs. a ∷ xs) (replicate-add n m a) ∙ ap (λ k. replicate k a) e

-- A buffer of zeros is made of slots of zeros.
concat-replicate :
    {A : Type 0} (ns : List ℕ) (a : A) → concat (map (λ n. replicate n a) ns) ≡ replicate (sum ns) a
concat-replicate [] a = refl
concat-replicate (n ∷ ns) a =
    ap (λ xs. replicate n a ++ xs) (concat-replicate ns a) ∙ replicate-add n (sum ns) a

==_sym : (a b : ℕ) → (a == b) ≡ (b == a)
==_sym a b = ground arith

-- `found i` are the neighbors for place `i`.
module _ (torch : Torch) (with_edge : Bool) (found : ℕ → List (ℕ × EdgeId))
    (srcs partition_ids : List ℕ) (sized : length partition_ids ≡ length srcs) where
  abbrev pub orders : ℕ → List ℕ
  orders pidx = places srcs partition_ids pidx

  abbrev pub part : ℕ → PartialNeighborOutput
  part pidx = record { index = orders pidx; output = flat with_edge found (orders pidx) }

  abbrev num_at : ℕ → ℕ
  num_at i = length (found i)

  -- The numbers of neighbors of all places.
  abbrev pub nums : List ℕ
  nums = map num_at (range (length srcs))

  abbrev pub Covers : List ℕ → Type 0
  Covers ps = (j t : ℕ) → get_elem? partition_ids j ≡ some t → contains ps t ≡ true

  place : (j t : ℕ) → get_elem? partition_ids j ≡ some t → j < length srcs
  place j t h = omega (arith, lt-length_of_get partition_ids j t h, sized)

  -- A list with an entry `g j` for each place is made of them.
  complete_list :
      {A : Type 0} (g : ℕ → A) (xs : List A)
      → length xs ≡ length srcs
      → ((j t : ℕ) → get_elem? partition_ids j ≡ some t → get_elem? xs j ≡ some (g j))
      → xs ≡ map g (range (length srcs))
  complete_list g xs size at_place =
      let size' : length (map g (range (length srcs))) ≡ length srcs =
        length-map (range (length srcs)) g ∙ length-range_from 0 (length srcs) in
      eq_of_get xs (map g (range (length srcs))) λ j.
        elim (Option-cases (get_elem? partition_ids j)) [
          | inr (t, at) ↦
              at_place j t at
              ∙ sym (
                  get_elem?-map g (range (length srcs)) j j
                    (get_elem?-range (length srcs) j (place j t at)))
          | inl out ↦
              let past : length partition_ids ≤ j = length-le_of_none partition_ids j out in
              get_elem?-none xs j (omega (arith, size, sized, past))
              ∙ sym (
                  get_elem?-none (map g (range (length srcs))) j
                    (omega (arith, size', sized, past)))
        ]

  -- The numbers after the results of some parts.
  record Counted (ps before : List ℕ) : Type 0 where
    after : List ℕ
    returns : copy_nums torch (map part ps) before ≡ some after
    size : length after ≡ length srcs
    entry :
        (j t : ℕ)
        → get_elem? partition_ids j ≡ some t
        → get_elem? after j ≡ (if contains ps t then some (num_at j) else get_elem? before j)

  copy_nums_lem : (ps before : List ℕ) → length before ≡ length srcs → Counted ps before
  unfolding copy_nums
  copy_nums_lem [] before len = record {
    after = before;
    returns = refl;
    size = len;
    entry = λ j t h. refl;
  }
  copy_nums_lem (pidx ∷ ps) before len =
      let all : List ℕ = range (length srcs) in
      let size : length all ≡ length srcs = length-range_from 0 (length srcs) in
      let counts : List ℕ = map num_at (orders pidx) in
      let w : Wrote torch (λ i. some (num_at i)) all partition_ids (sized ∙ sym size) pidx counts
          before =
        write_part torch (λ i. some (num_at i)) all partition_ids (sized ∙ sym size) pidx counts
          before (len ∙ sym size)
          (length-map (orders pidx) num_at, λ k i at. get_elem?-map num_at (orders pidx) k i at) in
      let put : torch.index_put before (orders pidx) counts ≡ some w.after =
        ap (λ k. torch.index_put before (select (range k) (in_part pidx partition_ids)) counts)
          (sym size)
        ∙ w.returns in
      let rest = copy_nums_lem ps w.after (w.size ∙ size) in
      record {
        after = rest.after;
        returns = rw put rest.returns;
        size = rest.size;
        entry = λ j t h. ground (
          arith,
          rest.entry j t h,
          w.entry j t j h (get_elem?-range (length srcs) j (place j t h)),
        );
      }

  -- When the parts of all places have answered, the numbers are those of the places.
  pub all_counted :
      (ps : List ℕ)
      → Covers ps
      → copy_nums torch (map part ps) (torch.zeros (length srcs)) ≡ some nums
  all_counted ps covers =
      let start : length (torch.zeros (length srcs)) ≡ length srcs =
        ap length (torch.zeros_law (length srcs)) ∙ length-replicate (length srcs) 0 in
      let c = copy_nums_lem ps (torch.zeros (length srcs)) start in
      c.returns
      ∙ ap some
          (complete_list num_at c.after c.size (λ j t at. c.entry j t at ∙ rw (covers j t at) refl))

  -- `g i` is one column of the neighbors for place `i`.
  module _ {A : Type 0} (items_of : NeighborOutput → Option (List A)) (g : ℕ → List A)
      (items : (is : List ℕ) → items_of (flat with_edge found is) ≡ some (concat (map g is)))
      (lens : (i : ℕ) → length (found i) ≡ length (g i)) where
    fits : (is : List ℕ) → AllBelow (length srcs) is → Sized g nums is
    fits [] below = tt
    fits (i ∷ is) (lt, below) = (
      get_elem?-map num_at (range (length srcs)) i i (get_elem?-range (length srcs) i lt)
          ∙ ap some (lens i),
      fits is below,
    )

    orders_fit : (pidx : ℕ) → Sized g nums (orders pidx)
    orders_fit pidx =
        fits (orders pidx) (
          rw (← sized)
            (ids_from-AllBelow 0 (length partition_ids) pidx partition_ids (omega arith)))

    -- The slots after the results of some parts.
    abbrev set_parts : List ℕ → List (List A) → List (List A)
    set_parts [] slots = slots
    set_parts (pidx ∷ ps) slots = set_parts ps (set_all g (orders pidx) slots)

    copy_results_lem :
        (ps : List ℕ) (slots : List (List A))
        → map length slots ≡ nums
        → copy_results items_of (cumsum 0 nums) (map part ps) (concat slots)
          ≡ some (concat (set_parts ps slots))
    unfolding copy_results
    copy_results_lem [] slots e = refl
    copy_results_lem (pidx ∷ ps) slots e =
        let is : List ℕ = orders pidx in
        let same : map num_at is ≡ map (λ i. length (g i)) is =
          map_same num_at (λ i. length (g i)) is lens in
        rw (items is, same, copy_ids_lem g nums is [] slots e (orders_fit pidx))
          (copy_results_lem ps (set_all g is slots)
            (set_all-sizes g nums is slots e (orders_fit pidx)))

    set_parts-sizes :
        (ps : List ℕ) (slots : List (List A))
        → map length slots ≡ nums
        → map length (set_parts ps slots) ≡ nums
    set_parts-sizes [] slots e = e
    set_parts-sizes (pidx ∷ ps) slots e =
        set_parts-sizes ps (set_all g (orders pidx) slots)
          (set_all-sizes g nums (orders pidx) slots e (orders_fit pidx))

    size_of : (slots : List (List A)) → map length slots ≡ nums → length slots ≡ length srcs
    size_of slots e =
        sym (length-map slots length)
        ∙ ap length e
        ∙ length-map (range (length srcs)) num_at
        ∙ length-range_from 0 (length srcs)

    get_elem?-set_parts :
        (ps : List ℕ) (slots : List (List A)) (j t : ℕ)
        → map length slots ≡ nums
        → get_elem? partition_ids j ≡ some t
        → get_elem? (set_parts ps slots) j
          ≡ (if contains ps t then some (g j) else get_elem? slots j)
    get_elem?-set_parts [] slots j t e at = refl
    get_elem?-set_parts (pidx ∷ ps) slots j t e at =
        let there : contains (orders pidx) j ≡ (t == pidx) =
          rw (← sized) (contains-ids partition_ids pidx j t at) in
        let lt : j < length slots = omega (arith, place j t at, size_of slots e) in
        ground (
          arith,
          get_elem?-set_parts ps (set_all g (orders pidx) slots) j t
              (set_all-sizes g nums (orders pidx) slots e (orders_fit pidx)) at,
          get_elem?-set_all g (orders pidx) slots j lt,
          there,
          ==_sym t pidx,
        )

    -- When the parts of all places have answered, the buffer has the items of the places in order.
    pub all_copied :
        (ps : List ℕ) (zero_item : A)
        → Covers ps
        → copy_results items_of (cumsum 0 nums) (map part ps) (replicate (sum nums) zero_item)
          ≡ some (concat (map g (range (length srcs))))
    all_copied ps zero_item covers =
        let start : List (List A) = map (λ n. replicate n zero_item) nums in
        let e : map length start ≡ nums = replicated_sizes nums zero_item in
        ap (copy_results items_of (cumsum 0 nums) (map part ps))
          (sym (concat-replicate nums zero_item))
        ∙ copy_results_lem ps start e
        ∙ ap (λ slots. some (concat slots))
            (complete_list g (set_parts ps start)
              (size_of (set_parts ps start) (set_parts-sizes ps start e))
              (λ j t at. get_elem?-set_parts ps start j t e at ∙ rw (covers j t at) refl))

  abbrev pub nbrs_at : ℕ → List ℕ
  nbrs_at i = map (λ e. e.0) (found i)

  abbrev pub eids_at : ℕ → List EdgeId
  eids_at i = map (λ e. e.1) (found i)

module _ (torch : Torch) (found : ℕ → List (ℕ × EdgeId)) (srcs partition_ids : List ℕ)
    (sized : length partition_ids ≡ length srcs) where
  pub edges_copied :
      (with_edge : Bool) (ps : List ℕ)
      → Covers torch with_edge found srcs partition_ids sized ps
      → copy_eids torch with_edge
          (cumsum 0 (nums torch with_edge found srcs partition_ids sized))
          (map (part torch with_edge found srcs partition_ids sized) ps)
          (sum (nums torch with_edge found srcs partition_ids sized))
        ≡ some (
            if with_edge
            then some (
                concat (
                  map
                    (eids_at torch with_edge found srcs partition_ids sized)
                    (range (length srcs))))
            else none)
  edges_copied false ps covers = refl
  edges_copied true ps covers =
      rw
        (all_copied torch true found srcs partition_ids sized (λ out. out.edge_ids)
          (eids_at torch true found srcs partition_ids sized) (λ is. refl)
          (λ i. sym (length-map (found i) (λ e. e.1))) ps (edge 0) covers)
        refl
