-- ===== src/Sampler/Inducer/Edges.antt =====
-- The rows and columns that an inducer writes lead back to the sampled edges.
use mathlib.Core.List.{append_assoc}
use mathlib.Core.Path.{subst}
use graphlearn_for_pytorch.Prelude.{
  ℕ, zero, suc, ◌+◌, ◌≤◌, ◌≡◌, inl, inr, refl, ap, sym, ◌∙◌, true, false, some, List, [], ◌∷◌, ◌++◌,
  arith, nat_keys, length, get_elem?, take, drop, replicate, length-drop, take-append-drop,
  Bool-cases, get_elem?-append_left, lt-length_of_get,
}
use graphlearn_for_pytorch.Torch.{contains, gather, gather-cons, gather-cons_eq, gather-append}
use graphlearn_for_pytorch.Sampler.Inducer.{
  Inducer, local_of, Written, write_source, write_edges, Induced, induce_next, insert_nodes,
}
use graphlearn_for_pytorch.Sampler.Inducer.Numbering.{
  IsNumbering, lookup_cases, fresh, fresh_known, fresh_new, insert_nodes-numbers,
}

abbrev pub total : List ℕ → ℕ
total [] = 0
total (n ∷ ns) = n + total ns

-- Each source as often as it has neighbors.
abbrev pub spread : List ℕ → List ℕ → List ℕ
spread [] counts = []
spread (src ∷ srcs) [] = []
spread (src ∷ srcs) (count ∷ counts) = replicate count src ++ spread srcs counts

abbrev pub AllIn : List ℕ → List ℕ → Type 0
AllIn nodes [] = Unit
AllIn nodes (x ∷ xs) = (contains nodes x ≡ true) × AllIn nodes xs

AllIn-drop : (n : ℕ) (nodes xs : List ℕ) → AllIn nodes xs → AllIn nodes (drop n xs)
AllIn-drop zero nodes xs h = h
AllIn-drop (suc n) nodes [] h = tt
AllIn-drop (suc n) nodes (x ∷ xs) h = AllIn-drop n nodes xs h.1

module _ (inducer : Inducer) (nodes : List ℕ) (ok : IsNumbering inducer nodes) where
  local_lem :
      (v : ℕ)
      → contains nodes v ≡ true
      → (i : ℕ) × (local_of inducer.glob2local v ≡ (inducer.glob2local, i))
        × (get_elem? nodes i ≡ some v)
  local_lem v h = elim (lookup_cases inducer nodes v ok) [
    | inl (i, e, there) ↦ (i, rw (e, local_of) refl, ok.sound v i e)
    | inr (e, absent) ↦ absurd (clash h absent)
  ]
    where
      clash : contains nodes v ≡ true → contains nodes v ≡ false → ⊥
      clash p q = cc

  record Leads (w : Written) (srcs nbrs rest : List ℕ) : Type 0 where
    kept : w.table ≡ inducer.glob2local
    rows : gather nodes w.rows ≡ some srcs
    cols : gather nodes w.cols ≡ some nbrs
    left : w.rest ≡ rest

  write_source_lem :
      (count src : ℕ) (nbrs : List ℕ)
      → count ≤ length nbrs
      → contains nodes src ≡ true
      → AllIn nodes nbrs
      → (w : Written) × (write_source inducer.glob2local src count nbrs ≡ some w)
        × Leads w (replicate count src) (take count nbrs) (drop count nbrs)
  unfolding write_source
  write_source_lem zero src nbrs h there all =
      (_, refl, record { kept = refl; rows = refl; cols = refl; left = refl })
  write_source_lem (suc count) src [] h there all = absurd (omega arith)
  write_source_lem (suc count) src (nbr ∷ nbrs) h there all =
      let (i, ei, ati) = local_lem src there in
      let (j, ej, atj) = local_lem nbr all.0 in
      let (w, run, leads) = write_source_lem count src nbrs (omega arith) there all.1 in
      (
        record w { rows = i ∷ w.rows; cols = j ∷ w.cols },
        rw (ei, ej, run) refl,
        record {
          kept = leads.kept;
          rows = gather-cons_eq nodes i w.rows ati leads.rows;
          cols = gather-cons_eq nodes j w.cols atj leads.cols;
          left = leads.left;
        },
      )

  write_edges_lem :
      (srcs counts nbrs : List ℕ)
      → length counts ≡ length srcs
      → total counts ≡ length nbrs
      → AllIn nodes srcs
      → AllIn nodes nbrs
      → (w : Written) × (write_edges inducer.glob2local srcs counts nbrs ≡ some w)
        × Leads w (spread srcs counts) nbrs []
  unfolding write_edges
  write_edges_lem [] [] [] len sum hs hn =
      (_, refl, record { kept = refl; rows = refl; cols = refl; left = refl })
  write_edges_lem [] [] (n ∷ nbrs) len sum hs hn = absurd (omega arith)
  write_edges_lem [] (c ∷ cs) nbrs len sum hs hn = absurd (omega arith)
  write_edges_lem (s ∷ ss) [] nbrs len sum hs hn = absurd (omega arith)
  write_edges_lem (s ∷ ss) (c ∷ cs) nbrs len sum hs hn =
      let (w, run, leads) = write_source_lem c s nbrs (omega arith) hs.0 hn in
      let (w', run', leads') =
        write_edges_lem ss cs (drop c nbrs) (omega arith) (omega (arith, length-drop c nbrs)) hs.1
          (AllIn-drop c nodes nbrs hn) in
      (
        record w' { rows = w.rows ++ w'.rows; cols = w.cols ++ w'.cols },
        rw (run, leads.kept, leads.left, run') refl,
        record {
          kept = leads'.kept;
          rows = gather-append nodes w.rows w'.rows leads.rows leads'.rows;
          cols =
              gather-append nodes w.cols w'.cols leads.cols leads'.cols
              ∙ ap some (take-append-drop c nbrs);
          left = leads'.left;
        },
      )

contains-append_left :
    (xs ys : List ℕ) (v : ℕ) → contains xs v ≡ true → contains (xs ++ ys) v ≡ true
contains-append_left [] ys v h = cc
contains-append_left (x ∷ xs) ys v h = ground (arith, contains-append_left xs ys v)

contains-append_right :
    (xs ys : List ℕ) (v : ℕ) → contains ys v ≡ true → contains (xs ++ ys) v ≡ true
contains-append_right [] ys v h = h
contains-append_right (x ∷ xs) ys v h = ground (arith, contains-append_right xs ys v)

pub AllIn-append_left : (xs ys vs : List ℕ) → AllIn xs vs → AllIn (xs ++ ys) vs
AllIn-append_left xs ys [] h = tt
AllIn-append_left xs ys (v ∷ vs) h =
    (contains-append_left xs ys v h.0, AllIn-append_left xs ys vs h.1)

pub AllIn-append_right : (xs ys vs : List ℕ) → AllIn ys vs → AllIn (xs ++ ys) vs
AllIn-append_right xs ys [] h = tt
AllIn-append_right xs ys (v ∷ vs) h =
    (contains-append_right xs ys v h.0, AllIn-append_right xs ys vs h.1)

AllIn-cons : (x : ℕ) (xs vs : List ℕ) → AllIn xs vs → AllIn (x ∷ xs) vs
AllIn-cons x xs [] h = tt
AllIn-cons x xs (v ∷ vs) h = (ground (arith, h.0), AllIn-cons x xs vs h.1)

pub AllIn-self : (xs : List ℕ) → AllIn xs xs
AllIn-self [] = tt
AllIn-self (x ∷ xs) = (ground arith, AllIn-cons x xs xs (AllIn-self xs))

-- Nodes that come are among those seen or those that are fresh.
pub fresh-AllIn : (seen vs : List ℕ) → AllIn (seen ++ fresh seen vs) vs
fresh-AllIn seen [] = tt
fresh-AllIn seen (v ∷ vs) = elim (Bool-cases (contains seen v)) [
  | inl e ↦
      subst (λ xs. AllIn (seen ++ xs) (v ∷ vs)) (sym (fresh_known seen v vs e))
        (contains-append_left seen (fresh seen vs) v e, fresh-AllIn seen vs)
  | inr e ↦
      subst (λ xs. AllIn (seen ++ xs) (v ∷ vs)) (sym (fresh_new seen v vs e))
        (
          contains-append_right seen (v ∷ fresh (seen ++ v ∷ []) vs) v (ground arith),
          subst (λ xs. AllIn xs vs) (append_assoc seen (v ∷ []) (fresh (seen ++ v ∷ []) vs))
              (fresh-AllIn (seen ++ v ∷ []) vs),
        )
]

pub gather-append_left :
    (xs ys is : List ℕ) {vs : List ℕ} → gather xs is ≡ some vs → gather (xs ++ ys) is ≡ some vs
gather-append_left xs ys [] h = h
gather-append_left xs ys (i ∷ is) {vs} h =
    let (v, rest, at, hr, e) = gather-cons xs i is vs h in
    rw e (
      gather-cons_eq (xs ++ ys) i is
        (get_elem?-append_left xs ys i (lt-length_of_get xs i v at) ∙ at)
        (gather-append_left xs ys is hr))

-- One hop: the fresh nodes are numbered behind those seen, and the rows and columns lead back to
-- the sources, each as often as it has neighbors, and to the neighbors.
pub record IsInduced (seen srcs counts nbrs : List ℕ) (d : Induced) : Type 0 where
  pub nodes_are : d.nodes ≡ fresh seen nbrs
  pub numbering : IsNumbering d.inducer (seen ++ fresh seen nbrs)
  pub rows_lead : gather (seen ++ fresh seen nbrs) d.rows ≡ some (spread srcs counts)
  pub cols_lead : gather (seen ++ fresh seen nbrs) d.cols ≡ some nbrs

pub induce_next_lem :
    (inducer : Inducer) (seen srcs counts nbrs : List ℕ)
    → IsNumbering inducer seen
    → AllIn seen srcs
    → length counts ≡ length srcs
    → total counts ≡ length nbrs
    → (d : Induced) × (induce_next inducer srcs nbrs counts ≡ some d)
      × IsInduced seen srcs counts nbrs d
unfolding induce_next
induce_next_lem inducer seen srcs counts nbrs ok all len sum =
    let (out, ok') = insert_nodes-numbers nbrs inducer seen ok in
    let (w, run, leads) =
      write_edges_lem (insert_nodes inducer nbrs).0 (seen ++ fresh seen nbrs) ok' srcs counts nbrs
        len sum (AllIn-append_left seen (fresh seen nbrs) srcs all) (fresh-AllIn seen nbrs) in
    (
      record {
        inducer = record (insert_nodes inducer nbrs).0 { glob2local = w.table };
        nodes = (insert_nodes inducer nbrs).1;
        rows = w.rows;
        cols = w.cols;
      },
      rw run refl,
      record {
        nodes_are = out;
        numbering = record {
          size = ok'.size;
          sound = rw leads.kept ok'.sound;
          known = rw leads.kept ok'.known;
        };
        rows_lead = leads.rows;
        cols_lead = leads.cols;
      },
    )
