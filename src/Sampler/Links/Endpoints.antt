-- ===== src/Sampler/Links/Endpoints.antt =====
-- The metadata of `sample_from_edges` leads from the links to their end nodes in the result.
use mathlib.Core.List.{append-nil}
use graphlearn_for_pytorch.Prelude.{
  ℕ, suc, ◌*◌, ◌/◌, ◌%◌, ◌<◌, ◌≡◌, refl, ap, ◌∙◌, Bool, true, false, Option, none, some, List, [],
  ◌∷◌, ◌++◌, arith, ◌==◌, ==_iff, ==_ne, ◌>>=◌, length, take, drop, get_elem?, replicate,
  length-append,
}
use graphlearn_for_pytorch.Torch.{Torch, gather, contains, gather-take, gather-drop, length-gather}
use graphlearn_for_pytorch.Sampler.Base.{
  EdgeSamplerInput, NegativeSampling, binary, ceil_times, SamplerOutput,
}
use graphlearn_for_pytorch.Typing.{EdgeType}
use graphlearn_for_pytorch.Sampler.Inducer.Numbering.{fresh, fresh_new}
use graphlearn_for_pytorch.Sampler.Inducer.Edges.{gather-append_left}
use graphlearn_for_pytorch.Sampler.Neighbor.{OneHop, NeighborSampler, sample_from_nodes}
use graphlearn_for_pytorch.Sampler.Neighbor.Relabels.{IsSampler, sample_from_nodes-IsSample}
use graphlearn_for_pytorch.Sampler.Links.{
  Unique, NegSampler, Metadata, links, Links, labels_or_ones, add_negatives, halves, metadata_for,
  metadata_mode, sample_from_edges,
}

contains_snoc :
    (xs : List ℕ) (x v : ℕ)
    → contains xs v ≡ false
    → (x == v) ≡ false
    → contains (xs ++ x ∷ []) v ≡ false
contains_snoc [] x v h e = ground arith
contains_snoc (y ∷ xs) x v h e = ground (arith, contains_snoc xs x v)

-- Nodes without repeats, none of them seen, are all fresh.
fresh_distinct :
    (xs seen : List ℕ)
    → ((i j v : ℕ) → get_elem? xs i ≡ some v → get_elem? xs j ≡ some v → i ≡ j)
    → ((i v : ℕ) → get_elem? xs i ≡ some v → contains seen v ≡ false)
    → fresh seen xs ≡ xs
fresh_distinct [] seen once new = refl
fresh_distinct (x ∷ xs) seen once new =
    fresh_new seen x xs (new 0 x refl)
    ∙ ap (◌∷◌ x) (
        fresh_distinct xs (seen ++ x ∷ [])
          (λ i j v hi hj. omega (arith, once (suc i) (suc j) v hi hj))
          (λ i v h. contains_snoc seen x v (new (suc i) v h) (==_ne x v (λ e. other i v h e))))
  where
    other : (i v : ℕ) → get_elem? xs i ≡ some v → x ≡ v → ⊥
    other i v h e = omega (arith, once 0 (suc i) v (ap some e) h)

take-append : (xs ys : List ℕ) → take (length xs) (xs ++ ys) ≡ xs
take-append [] ys = refl
take-append (x ∷ xs) ys = ap (◌∷◌ x) (take-append xs ys)

drop-append : (xs ys : List ℕ) → drop (length xs) (xs ++ ys) ≡ ys
drop-append [] ys = refl
drop-append (x ∷ xs) ys = drop-append xs ys

-- The negative pairs of a request and the labels of all its links. Without negative sampling there is
-- no pair, and the labels are the given ones. For pairs, they are what the sampler draws for `amount`
-- times as many as there are links, rounded up, and as many zeros stand behind the labels, which are
-- ones where none are given.
abbrev pub Draws :
    NegSampler
    → EdgeSamplerInput ℕ
    → Option NegativeSampling
    → List ℕ × List ℕ
    → Option (List ℕ)
    → Type 0
Draws neg_sampler inputs none negatives label = (negatives ≡ ([], [])) × (label ≡ inputs.label)
Draws neg_sampler inputs (some neg_sampling) negatives label =
    let num_neg = ceil_times (length inputs.row) neg_sampling.amount in
    (sample : ℕ → Bool → List ℕ × List ℕ) × (neg_sampler ≡ some sample)
    × (neg_sampling.mode ≡ binary)
    × (negatives ≡ sample num_neg false)
    × (label ≡ some (labels_or_ones inputs.label (length inputs.row) ++ replicate num_neg 0))

-- Links, or links with sampled negatives, in pairs: the mode is not for triplets.
abbrev IsPaired : Option NegativeSampling → Type 0
IsPaired none = Unit
IsPaired (some neg_sampling) = neg_sampling.mode ≡ binary

Draws-IsPaired :
    (neg_sampler : NegSampler) (inputs : EdgeSamplerInput ℕ) (o : Option NegativeSampling)
    (negatives : List ℕ × List ℕ) (label : Option (List ℕ))
    → Draws neg_sampler inputs o negatives label
    → IsPaired o
Draws-IsPaired neg_sampler inputs none negatives label d = tt
Draws-IsPaired neg_sampler inputs (some neg_sampling) negatives label d = d.2

paired_metadata :
    (neg_sampling : Option NegativeSampling) (num_pos : ℕ) (label : Option (List ℕ))
    (inverse : List ℕ)
    → IsPaired neg_sampling
    → metadata_for neg_sampling num_pos label inverse
      ≡ (halves inverse >>= λ index. some (links index label))
paired_metadata none num_pos label inverse h = refl
paired_metadata (some neg_sampling) num_pos label inverse h =
    ap (λ mode. metadata_mode mode num_pos label inverse) h

abbrev inputs_of :
    List ℕ
    → List ℕ
    → Option (List ℕ)
    → Option EdgeType
    → Option NegativeSampling
    → EdgeSamplerInput ℕ
inputs_of row col given input_type o = record {
  row = row;
  col = col;
  label = given;
  input_type = input_type;
  neg_sampling = o;
}

-- The negative pairs are appended to the links.
abbrev appended : EdgeSamplerInput ℕ → List ℕ × List ℕ → Option (List ℕ) → Links
appended inputs negatives label = record {
  src = inputs.row ++ negatives.0;
  dst = inputs.col ++ negatives.1;
  edge_label = label;
}

add_negatives-appended :
    (neg_sampler : NegSampler) (row col : List ℕ) (given : Option (List ℕ))
    (input_type : Option EdgeType) (o : Option NegativeSampling) (negatives : List ℕ × List ℕ)
    (label : Option (List ℕ))
    → Draws neg_sampler (inputs_of row col given input_type o) o negatives label
    → add_negatives neg_sampler (inputs_of row col given input_type o)
      ≡ some (appended (inputs_of row col given input_type o) negatives label)
unfolding add_negatives
add_negatives-appended neg_sampler row col given input_type none negatives label (e, k) =
    rw (e, k, append-nil row, append-nil col) refl
add_negatives-appended neg_sampler row col given input_type (some neg_sampling) negatives label
      (sample, there, mode, e, k) =
    rw (mode, there, e, k) refl

module _ (torch : Torch) (pywrap : OneHop) (ok : IsSampler pywrap) (torch_unique : Unique) where
  -- A sample of the unique seeds, in which the inverse leads to all seeds.
  seeds_sample :
      (self : NeighborSampler) (seeds : List ℕ)
      → 0 < length self.num_neighbors
      → (out : SamplerOutput Metadata) × (sample_from_nodes torch pywrap self
            (torch_unique.unique seeds).0
          ≡ some out)
        × (gather out.node (torch_unique.unique seeds).1 ≡ some seeds)
  seeds_sample self seeds pos =
      let uniq : List ℕ = (torch_unique.unique seeds).0 in
      let (out, run, sample) =
        sample_from_nodes-IsSample torch pywrap ok {Metadata = Metadata} self uniq pos in
      let same : fresh [] uniq ≡ uniq =
        fresh_distinct uniq [] (torch_unique.once_law seeds) (λ i v h. refl) in
      (
        out,
        run,
        rw (sample.nodes_are, same)
            (gather-append_left uniq _ (torch_unique.unique seeds).1
              (torch_unique.inverse_law seeds)),
      )

  halves_lem :
      (nodes inverse xs ys : List ℕ)
      → length xs ≡ length ys
      → gather nodes inverse ≡ some (xs ++ ys)
      → (index : List ℕ × List ℕ) × (halves inverse ≡ some index)
        × (gather nodes index.0 ≡ some xs)
        × (gather nodes index.1 ≡ some ys)
  halves_lem nodes inverse xs ys same e =
      let size : length inverse ≡ 2 * length xs =
        omega (arith, length-gather nodes inverse (xs ++ ys) e, length-append {0} xs ys) in
      let half : length inverse / 2 ≡ length xs = omega (arith, size) in
      let even : (length inverse % 2 == 0) ≡ true =
        (==_iff (length inverse % 2) 0).1 (omega (arith, size)) in
      (
        (take (length inverse / 2) inverse, drop (length inverse / 2) inverse),
        rw even refl,
        gather-take (length inverse / 2) nodes inverse (xs ++ ys) e
            ∙ ap some (ap (λ n. take n (xs ++ ys)) half ∙ take-append xs ys),
        gather-drop (length inverse / 2) nodes inverse (xs ++ ys) e
            ∙ ap some (ap (λ n. drop n (xs ++ ys)) half ∙ drop-append xs ys),
      )

  -- For links without an input type, and without negatives or with pairs of them, over at least one
  -- hop, with as many sources as destinations among the links and among the drawn pairs:
  -- `sample_from_edges` succeeds, the nodes of the sample at its `edge_label_index` are the sources of
  -- the links and of the drawn pairs, and their destinations, and it comes with the labels of the
  -- links, one where none is given, and a zero for each negative pair that is asked for.
  pub sample_from_edges-links :
      (neg_sampler : NegSampler) (self : NeighborSampler) (inputs : EdgeSamplerInput ℕ)
      (negatives : List ℕ × List ℕ) (label : Option (List ℕ))
      → 0 < length self.num_neighbors
      → inputs.input_type ≡ none
      → Draws neg_sampler inputs inputs.neg_sampling negatives label
      → length inputs.row ≡ length inputs.col
      → length negatives.0 ≡ length negatives.1
      → (out : SamplerOutput Metadata) × (index : List ℕ × List ℕ) × (sample_from_edges torch pywrap
            torch_unique neg_sampler self inputs
          ≡ some out)
        × (out.metadata ≡ some (links index label))
        × (gather out.node index.0 ≡ some (inputs.row ++ negatives.0))
        × (gather out.node index.1 ≡ some (inputs.col ++ negatives.1))
  unfolding sample_from_edges
  sample_from_edges-links neg_sampler self inputs negatives label pos homogeneous draws same even =
      let added : Links = appended inputs negatives label in
      let e : add_negatives neg_sampler inputs ≡ some added =
        add_negatives-appended neg_sampler inputs.row inputs.col inputs.label inputs.input_type
          inputs.neg_sampling negatives label draws in
      let src : List ℕ = inputs.row ++ negatives.0 in
      let dst : List ℕ = inputs.col ++ negatives.1 in
      let as_many : length src ≡ length dst = omega (
        arith,
        same,
        even,
        length-append {0} inputs.row negatives.0,
        length-append {0} inputs.col negatives.1,
      ) in
      let (out, run, lead) = seeds_sample self (src ++ dst) pos in
      let inverse : List ℕ = (torch_unique.unique (src ++ dst)).1 in
      let (index, cut, at_src, at_dst) = halves_lem out.node inverse src dst as_many lead in
      let made : metadata_for inputs.neg_sampling (length inputs.row) label inverse
          ≡ some (links index label) =
        paired_metadata inputs.neg_sampling (length inputs.row) label inverse
          (Draws-IsPaired neg_sampler inputs inputs.neg_sampling negatives label draws)
        ∙ rw cut refl in
      (
        record out { metadata = some (links index label) },
        index,
        rw (homogeneous, e, run, made) refl,
        refl,
        at_src,
        at_dst,
      )
