-- ===== src/Partition/Edges.antt =====
-- `_partition_graph` as a whole: the chunked loop gives the parts of a direct selection.
use graphlearn_for_pytorch.Prelude.{
  ℕ, zero, suc, ◌+◌, ◌-◌, ◌*◌, ◌/◌, ◌≤◌, ◌<◌, ◌≡◌, refl, ap, sym, ◌∙◌, false, some, List, [], ◌∷◌,
  ◌&&◌, map, arith, ◌==◌, leb, ltb, if◌then◌else◌, length, get_elem?, range, range_from, replicate,
  eq_of_get, get_elem?-none, length-le_of_none, Option-cases, Bool-cases, inl, inr,
  length-range_from, length-replicate,
}
use graphlearn_for_pytorch.Torch.{
  Torch, gather, length-gather, select, AllBelow, filled-total, length-filled, get_elem?-filled,
  contains, AllBelow-get,
}
use graphlearn_for_pytorch.Typing.{GraphPartitionData, PartitionBook}
use graphlearn_for_pytorch.Partition.Base.{cat_part, collect_parts, partition_edges}
use graphlearn_for_pytorch.Partition.Chunks.{in_part, part_of, pieces, chunk_loop_lem}
use graphlearn_for_pytorch.Partition.Collect.{cat_part_lem}

-- The positions of the edges of a part.
abbrev pub ids_from : ℕ → List ℕ → ℕ → List ℕ
ids_from s parts p = select (range_from s (length parts)) (in_part p parts)

pub ids_from-AllBelow :
    (s n p : ℕ) (parts : List ℕ) → s + length parts ≤ n → AllBelow n (ids_from s parts p)
ids_from-AllBelow s n p [] h = tt
ids_from-AllBelow s n p (q ∷ parts) h =
    let ih = ids_from-AllBelow (suc s) n p parts (omega arith) in
    elim (Bool-cases (q == p)) [ inl e ↦ rw e (omega arith, ih) | inr e ↦ rw e ih ]

not_before : (s j p : ℕ) (parts : List ℕ) → j < s → contains (ids_from s parts p) j ≡ false
not_before s j p [] h = refl
not_before s j p (q ∷ parts) h = ground (arith, not_before (suc s) j p parts)

contains-ids_from :
    (s j p t : ℕ) (parts : List ℕ)
    → get_elem? parts j ≡ some t
    → contains (ids_from s parts p) (s + j) ≡ (t == p)
contains-ids_from s j p t [] h = cc
contains-ids_from s zero p t (q ∷ parts) h = ground (arith, not_before (suc s) (s + 0) p parts)
contains-ids_from s (suc j) p t (q ∷ parts) h =
    let e : s + suc j ≡ suc s + j = omega arith in
    rw e (ground (arith, contains-ids_from (suc s) j p t parts h))

pub contains-ids :
    (parts : List ℕ) (p j t : ℕ)
    → get_elem? parts j ≡ some t
    → contains (ids_from 0 parts p) j ≡ (t == p)
contains-ids parts p j t h =
    let e : j ≡ 0 + j = omega arith in rw e (contains-ids_from 0 j p t parts h)

module _ (torch : Torch) (m : ℕ) (parts : List ℕ) (sized : length parts ≡ m)
    (G : ℕ → List GraphPartitionData) (P : ℕ → GraphPartitionData)
    (cats : (p : ℕ) → cat_part torch (G p) ≡ some (P p))
    (ids : (p : ℕ) → (P p).eids ≡ ids_from 0 parts p) where
  record Collected (s k : ℕ) (book : PartitionBook) : Type 0 where
    final : PartitionBook
    returns :
        collect_parts torch s (map G (range_from s k)) book ≡ some (map P (range_from s k), final)
    size : length final ≡ m
    entry :
        (j t : ℕ)
        → get_elem? parts j ≡ some t
        → get_elem? final j ≡ (if leb s t && ltb t (s + k) then some t else get_elem? book j)

  collect_parts_lem : (k s : ℕ) (book : PartitionBook) → length book ≡ m → Collected s k book
  unfolding collect_parts
  collect_parts_lem zero s book h = record {
    final = book;
    returns = refl;
    size = h;
    entry = λ j t e. ground arith;
  }
  collect_parts_lem (suc k) s book h =
      let (next, wrote) =
        filled-total book (P s).eids s
          (rw (ids s) (ids_from-AllBelow 0 (length book) s parts (omega arith))) in
      let rest =
        collect_parts_lem k (suc s) next
          (omega (arith, length-filled book (P s).eids s next wrote)) in
      record {
        final = rest.final;
        returns = simp (cats s, torch.index_fill_law, wrote, rest.returns);
        size = rest.size;
        entry = λ j t e.
            let here : contains (P s).eids j ≡ (t == s) = rw (ids s) (contains-ids parts s j t e) in
            ground (arith, rest.entry j t e, get_elem?-filled book (P s).eids s next j wrote, here);
      }

pub ceil_mul : (m d : ℕ) → m ≤ (m + suc d - 1) / suc d * suc d
ceil_mul m d = grind arith

ceil_pos : (m d : ℕ) → 0 < m → 0 < (m + suc d - 1) / suc d
ceil_pos m d h = grind arith

map-empty :
    {A : Type 0} (n s : ℕ)
    → replicate n [] ≡ map (λ (p : ℕ). let e : List A = [] in e) (range_from s n)
map-empty zero s = refl
map-empty (suc n) s = ap (λ l. [] ∷ l) (map-empty n (suc s))

module _ (torch : Torch) (num_parts c : ℕ) (rows cols pb targets parts : List ℕ)
    (some_edge : 0 < length rows) (same_cols : length cols ≡ length rows)
    (same_targets : length targets ≡ length rows) (read : gather pb targets ≡ some parts)
    (valid : AllBelow num_parts parts) where
  pub partition_edges_lem :
      partition_edges torch num_parts (suc c) (rows, cols) pb targets
      ≡ some (map (part_of rows cols (range (length rows)) parts) (range num_parts), parts)
  unfolding partition_edges
  partition_edges_lem =
      let m = length rows in
      let chunks = (m + suc c - 1) / suc c in
      let sized : length parts ≡ m = omega (arith, length-gather pb targets parts read) in
      let eids = range m in
      let same_eids : length eids ≡ m = length-range_from 0 m in
      let loop =
        chunk_loop_lem rows cols eids parts (suc c) torch pb targets same_cols same_eids sized read
          num_parts chunks 0 (λ p. []) in
      let cats = λ (p : ℕ).
        cat_part_lem rows cols eids parts (suc c) torch same_cols same_eids sized chunks p
          (ceil_pos m c some_edge) (ceil_mul m c) in
      let collected =
        collect_parts_lem torch m parts sized (pieces rows cols eids parts (suc c) chunks 0)
          (part_of rows cols eids parts) cats (λ p. rw (← sized)) num_parts 0 (replicate m 0)
          (length-replicate m 0) in
      let book = eq_of_get collected.final parts λ i. elim (Option-cases (get_elem? parts i)) [
        | inl out ↦
            let above = length-le_of_none parts i out in
            get_elem?-none collected.final i (omega (arith, collected.size)) ∙ sym out
        | inr (t, e) ↦
            ground (arith, collected.entry i t e, AllBelow-get num_parts parts i t valid e)
      ] in
      simp (torch.arange_law, torch.zeros_law, map-empty num_parts 0, loop, collected.returns, book)
