-- ===== src/Sampler/Neighbor/Relabels.antt =====
-- A sample of `NeighborSampler` against a reference that numbers nothing.
use mathlib.Core.List.{append-nil, append_assoc}
use mathlib.Core.Path.{subst}
use graphlearn_for_pytorch.Prelude.{
  ℕ, zero, suc, ◌+◌, ◌≤◌, ◌<◌, ◌≡◌, inl, inr, refl, ap, sym, ◌∙◌, Bool, Option, none, some, List,
  [], ◌∷◌, ◌++◌, arith, ◌==◌, nat_keys, length, get_elem?, concat, replicate, length-replicate,
  length-append, Bool-cases, some_inj,
}
use graphlearn_for_pytorch.Torch.{Torch, gather, gather-append}
use graphlearn_for_pytorch.Sampler.Base.{EdgeId, NeighborOutput, SamplerOutput}
use graphlearn_for_pytorch.Sampler.Inducer.{Inducer, init_node, Induced, insert_nodes, reset}
use graphlearn_for_pytorch.Sampler.Inducer.Numbering.{
  IsNumbering, fresh, insert_nodes-numbers, reset-IsNumbering,
}
use graphlearn_for_pytorch.Sampler.Inducer.Edges.{
  total, spread, AllIn, AllIn-self, AllIn-append_right, IsInduced, induce_next_lem,
  gather-append_left,
}
use graphlearn_for_pytorch.Sampler.Neighbor.{
  OneHop, NeighborSampler, sample_one_hop, Hops, append_edges, hop_loop, cat_edges,
  sample_from_nodes,
}

abbrev pub AtMost : ℕ → List ℕ → Type 0
AtMost n [] = Unit
AtMost n (m ∷ ms) = (m ≤ n) × AtMost n ms

-- What the compiled sampler documents: a number for each seed, at most the number asked for, and
-- as many neighbors as the numbers say.
pub record IsSampler (pywrap : OneHop) : Type 0 where
  pub sizes :
      (call : ℕ) (seeds : List ℕ) (req : ℕ) → length (pywrap call seeds req).nbrs_num ≡ length seeds
  pub sums :
      (call : ℕ) (seeds : List ℕ) (req : ℕ)
      → total (pywrap call seeds req).nbrs_num ≡ length (pywrap call seeds req).nbrs
  pub at_most : (call : ℕ) (seeds : List ℕ) (req : ℕ) → AtMost req (pywrap call seeds req).nbrs_num

-- A sample in global node ids: the nodes after the seeds, and each edge's source and target.
pub record Reference : Type 0 where
  pub nodes : List ℕ
  pub sources : List ℕ
  pub targets : List ℕ
  pub edge_lists : List (List EdgeId)

total_ones : (n : ℕ) → total (replicate n 1) ≡ n
total_ones zero = refl
total_ones (suc n) = omega (arith, total_ones n)

concat_snoc :
    {A : Type 0} (xss : List (List A)) (xs : List A) → concat (xss ++ xs ∷ []) ≡ concat xss ++ xs
concat_snoc [] xs = append-nil xs
concat_snoc (ys ∷ xss) xs =
    ap (◌++◌ ys) (concat_snoc xss xs) ∙ sym (append_assoc ys (concat xss) xs)

after_snoc :
    {A : Type 0} (before after : List (List A)) (xs rest : List A)
    → concat after ≡ concat (before ++ xs ∷ []) ++ rest
    → concat after ≡ concat before ++ (xs ++ rest)
after_snoc before after xs rest e =
    e ∙ ap (λ ys. ys ++ rest) (concat_snoc before xs) ∙ append_assoc (concat before) xs rest

edges_step :
    (before : List (List EdgeId)) (edge_ids : Option (List EdgeId)) (rest : List (List EdgeId))
    → append_edges before edge_ids ++ rest ≡ before ++ (append_edges [] edge_ids ++ rest)
edges_step before none rest = refl
edges_step before (some ids) rest = append_assoc before (ids ∷ []) rest

-- The lists of the loop after one hop.
abbrev extended : Hops → Induced → NeighborOutput → Hops
extended hops d out = record {
  out_nodes = hops.out_nodes ++ d.nodes ∷ [];
  out_rows = hops.out_rows ++ d.rows ∷ [];
  out_cols = hops.out_cols ++ d.cols ∷ [];
  out_edges = append_edges hops.out_edges out.edge_ids;
}

abbrev cons_hop : List ℕ → List ℕ → NeighborOutput → Reference → Reference
cons_hop seen srcs out rest = record {
  nodes = fresh seen out.nbr ++ rest.nodes;
  sources = spread srcs out.nbr_num ++ rest.sources;
  targets = out.nbr ++ rest.targets;
  edge_lists = append_edges [] out.edge_ids ++ rest.edge_lists;
}

module _ (pywrap : OneHop) (with_edge : Bool) where
  -- The neighbors of each hop are asked for the nodes that the hop before has found first.
  unfoldable pub reference : List ℕ → ℕ → List ℕ → List ℕ → Reference
  unfolding sample_one_hop
  reference [] call seen srcs = record { nodes = []; sources = []; targets = []; edge_lists = [] }
  reference (req_num ∷ req_nums) call seen srcs =
      let out = sample_one_hop pywrap with_edge call srcs req_num in
      let found = fresh seen out.nbr in
      let rest = reference req_nums (call + 1) (seen ++ found) found in cons_hop seen srcs out rest

  module _ (ok : IsSampler pywrap) where
    one_hop_sizes :
        (call : ℕ) (srcs : List ℕ) (req : ℕ)
        → (length (sample_one_hop pywrap with_edge call srcs req).nbr_num ≡ length srcs)
          × (total (sample_one_hop pywrap with_edge call srcs req).nbr_num
              ≡ length (sample_one_hop pywrap with_edge call srcs req).nbr)
    unfolding sample_one_hop
    one_hop_sizes call srcs req = elim (Bool-cases (length (pywrap call srcs req).nbrs == 0)) [
      | inl e ↦ rw e (length-replicate (length srcs) 1, total_ones (length srcs))
      | inr e ↦ rw e (ok.sizes call srcs req, ok.sums call srcs req)
    ]

    -- What the loop over the hops adds to its lists.
    pub record Added (seen : List ℕ) (ref : Reference) (before after : Hops) : Type 0 where
      pub rows : List ℕ
      pub cols : List ℕ
      pub nodes_are : concat after.out_nodes ≡ concat before.out_nodes ++ ref.nodes
      pub rows_are : concat after.out_rows ≡ concat before.out_rows ++ rows
      pub cols_are : concat after.out_cols ≡ concat before.out_cols ++ cols
      pub rows_lead : gather (seen ++ ref.nodes) rows ≡ some ref.sources
      pub cols_lead : gather (seen ++ ref.nodes) cols ≡ some ref.targets
      pub edges_are : after.out_edges ≡ before.out_edges ++ ref.edge_lists
      pub last : Inducer
      pub numbering : IsNumbering last (seen ++ ref.nodes)

    Added-step :
        (seen srcs : List ℕ) (out : NeighborOutput) (d : Induced) (rest : Reference)
        (hops after : Hops)
        → IsInduced seen srcs out.nbr_num out.nbr d
        → Added (seen ++ fresh seen out.nbr) rest (extended hops d out) after
        → Added seen (cons_hop seen srcs out rest) hops after
    Added-step seen srcs out d rest hops after ind a =
        let F : List ℕ = fresh seen out.nbr in
        let assoc : (seen ++ F) ++ rest.nodes ≡ seen ++ (F ++ rest.nodes) =
          append_assoc seen F rest.nodes in
        record {
          rows = d.rows ++ a.rows;
          cols = d.cols ++ a.cols;
          nodes_are =
              after_snoc hops.out_nodes after.out_nodes d.nodes rest.nodes a.nodes_are
              ∙ ap (λ xs. concat hops.out_nodes ++ (xs ++ rest.nodes)) ind.nodes_are;
          rows_are = after_snoc hops.out_rows after.out_rows d.rows a.rows a.rows_are;
          cols_are = after_snoc hops.out_cols after.out_cols d.cols a.cols a.cols_are;
          rows_lead =
              subst
                (λ xs.
                  gather xs (d.rows ++ a.rows) ≡ some (spread srcs out.nbr_num ++ rest.sources))
                assoc
                (gather-append ((seen ++ F) ++ rest.nodes) d.rows a.rows
                  (gather-append_left (seen ++ F) rest.nodes d.rows ind.rows_lead) a.rows_lead);
          cols_lead =
              subst (λ xs. gather xs (d.cols ++ a.cols) ≡ some (out.nbr ++ rest.targets)) assoc
                (gather-append ((seen ++ F) ++ rest.nodes) d.cols a.cols
                  (gather-append_left (seen ++ F) rest.nodes d.cols ind.cols_lead) a.cols_lead);
          edges_are = a.edges_are ∙ edges_step hops.out_edges out.edge_ids rest.edge_lists;
          last = a.last;
          numbering = subst (IsNumbering a.last) assoc a.numbering;
        }

    pub hop_loop_lem :
        (reqs : List ℕ) (call : ℕ) (inducer : Inducer) (seen srcs : List ℕ) (hops : Hops)
        → IsNumbering inducer seen
        → AllIn seen srcs
        → (after : Hops) × (hop_loop pywrap with_edge reqs call inducer srcs hops ≡ some after)
          × Added seen (reference reqs call seen srcs) hops after
          × (length after.out_nodes ≡ length hops.out_nodes + length reqs)
          × (length after.out_rows ≡ length hops.out_rows + length reqs)
          × (length after.out_cols ≡ length hops.out_cols + length reqs)
    unfolding hop_loop reference
    hop_loop_lem [] call inducer seen srcs hops num all = (
      hops,
      refl,
      record {
        rows = [];
        cols = [];
        rows_lead = refl;
        cols_lead = refl;
        last = inducer;
        nodes_are = sym (append-nil (concat hops.out_nodes));
        rows_are = sym (append-nil (concat hops.out_rows));
        cols_are = sym (append-nil (concat hops.out_cols));
        edges_are = sym (append-nil hops.out_edges);
        numbering = rw (append-nil seen) num;
      },
      omega arith,
      omega arith,
      omega arith,
    )
    hop_loop_lem (req ∷ reqs) call inducer seen srcs hops num all =
        let out = sample_one_hop pywrap with_edge call srcs req in
        let (sizes, sums) = one_hop_sizes call srcs req in
        let (d, run, ind) =
          induce_next_lem inducer seen srcs out.nbr_num out.nbr num all sizes sums in
        let found : List ℕ = fresh seen out.nbr in
        let within : AllIn (seen ++ found) d.nodes =
          subst (AllIn (seen ++ found)) (sym ind.nodes_are)
            (AllIn-append_right seen found found (AllIn-self found)) in
        let (after, run', a, n, r, c) =
          hop_loop_lem reqs (call + 1) d.inducer (seen ++ found) d.nodes (extended hops d out)
            ind.numbering within in
        (
          after,
          rw run run',
          Added-step seen srcs out d (reference reqs (call + 1) (seen ++ found) found) hops after
              ind
              (subst
                (λ xs.
                  Added (seen ++ found) (reference reqs (call + 1) (seen ++ found) xs)
                    (extended hops d out) after)
                ind.nodes_are a),
          omega (arith, n, length-append {0} hops.out_nodes (d.nodes ∷ [])),
          omega (arith, r, length-append {0} hops.out_rows (d.rows ∷ [])),
          omega (arith, c, length-append {0} hops.out_cols (d.cols ∷ [])),
        )

-- No list of edge ids, or all of them together.
abbrev pub edges_of : List (List EdgeId) → Option (List EdgeId)
edges_of [] = none
edges_of (ids ∷ idss) = some (concat (ids ∷ idss))

module _ (torch : Torch) where
  cat_some : {A : Type 0} (xss : List (List A)) → 0 < length xss → torch.cat xss ≡ some (concat xss)
  cat_some [] h = absurd (omega arith)
  cat_some (xs ∷ xss) h = torch.cat_law (xs ∷ xss)

  cat_edges_lem : (idss : List (List EdgeId)) → cat_edges torch idss ≡ some (edges_of idss)
  cat_edges_lem [] = refl
  cat_edges_lem (ids ∷ idss) = rw (torch.cat_law (ids ∷ idss)) refl

-- What a sample is, by the reference: its nodes are the distinct seeds and the nodes found, none
-- twice, and its edges lead from the sampled neighbors to the nodes for which they were sampled.
pub record IsSample {Metadata : Type 0} (seeds : List ℕ) (ref : Reference)
    (out : SamplerOutput Metadata) (edge_ids : Option (List EdgeId)) : Type 0 where
  pub nodes_are : out.node ≡ fresh [] seeds ++ ref.nodes
  pub batch_is : out.batch ≡ some (fresh [] seeds)
  pub sources_are : gather out.node out.col ≡ some ref.sources
  pub targets_are : gather out.node out.row ≡ some ref.targets
  pub edges_are : out.edge_ids ≡ edge_ids
  pub no_repeats :
      (i j v : ℕ) → get_elem? out.node i ≡ some v → get_elem? out.node j ≡ some v → i ≡ j

module _ (torch : Torch) (pywrap : OneHop) (ok : IsSampler pywrap) {Metadata : Type 0} where
  -- With at least one hop and a one-hop sampler as documented, sampling from any seeds returns a
  -- sample that is the reference's.
  pub sample_from_nodes-IsSample :
      (self : NeighborSampler) (seeds : List ℕ)
      → 0 < length self.num_neighbors
      → (out : SamplerOutput Metadata) × (sample_from_nodes torch pywrap self seeds ≡ some out)
        × IsSample seeds
            (reference pywrap self.with_edge self.num_neighbors 0 (fresh [] seeds) (fresh [] seeds))
            out
            (edges_of
              (reference pywrap self.with_edge self.num_neighbors 0
                (fresh [] seeds)
                (fresh [] seeds)).edge_lists)
  unfolding sample_from_nodes init_node
  sample_from_nodes-IsSample self seeds pos =
      let (srcs_are, num) = insert_nodes-numbers seeds reset [] reset-IsNumbering in
      let srcs : List ℕ = (insert_nodes reset seeds).1 in
      let start : Hops = record {
        out_nodes = srcs ∷ [];
        out_rows = [];
        out_cols = [];
        out_edges = [];
      } in
      let within : AllIn (fresh [] seeds) srcs =
        subst (AllIn (fresh [] seeds)) (sym srcs_are) (AllIn-self (fresh [] seeds)) in
      let (after, run, a, n, r, c) =
        hop_loop_lem pywrap self.with_edge ok self.num_neighbors 0 (insert_nodes reset seeds).0
          (fresh [] seeds) srcs start num within in
      let ref = reference pywrap self.with_edge self.num_neighbors 0 (fresh [] seeds) srcs in
      let node_eq : concat after.out_nodes ≡ fresh [] seeds ++ ref.nodes =
        a.nodes_are ∙ ap (λ xs. xs ++ ref.nodes) (append-nil srcs ∙ srcs_are) in
      let out : SamplerOutput Metadata = record {
        node = concat after.out_nodes;
        row = concat after.out_cols;
        col = concat after.out_rows;
        edge_ids = edges_of after.out_edges;
        batch = some srcs;
        metadata = none;
      } in
      (
        out,
        rw
            (
              run,
              cat_some torch after.out_nodes (omega (arith, n)),
              cat_some torch after.out_cols (omega (arith, c)),
              cat_some torch after.out_rows (omega (arith, r)),
              cat_edges_lem torch after.out_edges,
            )
            refl,
        subst
            (λ xs.
              IsSample seeds
                (reference pywrap self.with_edge self.num_neighbors 0 (fresh [] seeds) xs) out
                (edges_of
                  (reference pywrap self.with_edge self.num_neighbors 0 (fresh [] seeds)
                    xs).edge_lists))
            srcs_are
            (record {
              nodes_are = node_eq;
              batch_is = ap some srcs_are;
              sources_are = rw (node_eq, a.rows_are) a.rows_lead;
              targets_are = rw (node_eq, a.cols_are) a.cols_lead;
              edges_are = ap edges_of a.edges_are;
              no_repeats = λ i j v hi hj. some_inj (
                  sym (a.numbering.known v i (ap (λ xs. get_elem? xs i) (sym node_eq) ∙ hi))
                  ∙ a.numbering.known v j (ap (λ xs. get_elem? xs j) (sym node_eq) ∙ hj));
            }),
      )
