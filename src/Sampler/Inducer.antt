-- ===== src/Sampler/Inducer.antt =====
-- `CPUInducer` of graphlearn_torch/csrc/cpu/inducer.cc: it numbers the nodes of a sample in the
-- order in which they come, and writes the sampled edges by these numbers.
use graphlearn_for_pytorch.Prelude.{
  ℕ, zero, suc, ◌+◌, Option, none, some, List, [], ◌∷◌, ◌++◌, ◌>>=◌, Dict, lookup, insert, nat_keys,
}
pub mod Numbering
pub mod Edges

pub record Inducer : Type 0 where
  pub glob2local : Dict ℕ ℕ
  pub nodes_size : ℕ

-- A new inducer, and one after `Reset`.
abbrev pub reset : Inducer
reset = record { glob2local = []; nodes_size = 0 }

abbrev pub numbered : Inducer → ℕ → Inducer
numbered self node = record {
  glob2local = insert self.glob2local node self.nodes_size;
  nodes_size = self.nodes_size + 1;
}

-- The loop of `glob2local_.insert`, and the nodes that were new. `nodes_size_` and the counter of the
-- loop, 32-bit integers in the source, are unbounded.
unfoldable pub insert_nodes : Inducer → List ℕ → Inducer × List ℕ
insert_nodes self [] = (self, [])
insert_nodes self (node ∷ nodes) = elim (lookup self.glob2local node) [
  | some i ↦ insert_nodes self nodes
  | none ↦
      let (last, out_nodes) = insert_nodes (numbered self node) nodes in (last, node ∷ out_nodes)
]

unfoldable pub init_node : List ℕ → Inducer × List ℕ
unfolding insert_nodes
init_node seed = insert_nodes reset seed

-- `glob2local_[node]`, which enters 0 for a node that is not there.
abbrev pub local_of : Dict ℕ ℕ → ℕ → Dict ℕ ℕ × ℕ
local_of glob2local node = elim (lookup glob2local node) [
  | some i ↦ (glob2local, i)
  | none ↦ (insert glob2local node 0, 0)
]

-- What is left of the neighbors after a loop, with the table and the rows and columns written.
pub record Written : Type 0 where
  pub table : Dict ℕ ℕ
  pub rows : List ℕ
  pub cols : List ℕ
  pub rest : List ℕ

-- The inner loop, for the neighbors of one source. Nothing if it reads behind the neighbors.
unfoldable pub write_source : Dict ℕ ℕ → ℕ → ℕ → List ℕ → Option Written
write_source table src zero nbrs =
    some (record { table = table; rows = []; cols = []; rest = nbrs })
write_source table src (suc count) [] = none
write_source table src (suc count) (nbr ∷ nbrs) =
    let (table', row) = local_of table src in
    let (table'', col) = local_of table' nbr in
    write_source table'' src count nbrs >>= λ w.
    some (record w { rows = row ∷ w.rows; cols = col ∷ w.cols })

-- The outer loop. Nothing if a count is missing, or if a row is left unwritten at the end.
unfoldable pub write_edges : Dict ℕ ℕ → List ℕ → List ℕ → List ℕ → Option Written
unfolding write_source
write_edges table [] nbrs_num [] = some (record { table = table; rows = []; cols = []; rest = [] })
write_edges table [] nbrs_num (nbr ∷ nbrs) = none
write_edges table (src ∷ srcs) [] nbrs = none
write_edges table (src ∷ srcs) (count ∷ nbrs_num) nbrs = do
  w ← write_source table src count nbrs
  w' ← write_edges w.table srcs nbrs_num w.rest
  some (record w' { rows = w.rows ++ w'.rows; cols = w.cols ++ w'.cols })

pub record Induced : Type 0 where
  pub inducer : Inducer
  pub nodes : List ℕ
  pub rows : List ℕ
  pub cols : List ℕ

unfoldable pub induce_next : Inducer → List ℕ → List ℕ → List ℕ → Option Induced
unfolding insert_nodes write_edges
induce_next self srcs nbrs nbrs_num =
    let (inserted, out_nodes) = insert_nodes self nbrs in
    write_edges inserted.glob2local srcs nbrs_num nbrs >>= λ w. some (record {
      inducer = record inserted { glob2local = w.table };
      nodes = out_nodes;
      rows = w.rows;
      cols = w.cols;
    })
