-- ===== src/Distributed/Partitioner/Split.antt =====
-- What one chunk of a worker has for each part.
use graphlearn_for_pytorch.Prelude.{
  ℕ, zero, suc, ◌+◌, ◌-◌, ◌≤◌, ◌<◌, min, ◌≡◌, refl, ap, sym, ◌∙◌, Option, none, some, List, [], ◌∷◌,
  map, arith, ◌==◌, length, get_elem?, take, drop, range, traverse, length-map, length-range_from,
  length-take, length-drop, get_elem?-map, get_elem?-range_from, some_inj,
}
use mathlib.Core.Path.{subst}
use graphlearn_for_pytorch.Torch.{Torch, select, masked-eq-select, gather-select}
use graphlearn_for_pytorch.Utils.Common.{Selector, slice_of, positions, option_select, Selects}
use graphlearn_for_pytorch.Partition.Chunks.{in_part}
use graphlearn_for_pytorch.Partition.Edges.{ids_from, ids_from-AllBelow}
use graphlearn_for_pytorch.Distributed.Partitioner.{Results}
use graphlearn_for_pytorch.Distributed.Partitioner.Chunked.{
  PartitionFn, result_of, chunk_results, option_items, IsSplit, GivesParts, HasRows,
}

traverse-map :
    {A B : Type 0} (f : A → Option B) (g : A → B)
    → ((x : A) → f x ≡ some (g x))
    → (xs : List A) → traverse f xs ≡ some (map g xs)
traverse-map f g h [] = refl
traverse-map f g h (x ∷ xs) = rw (h x, traverse-map f g h xs) refl

take_none : {A : Type 0} (n m : ℕ) → take n (drop m (let e : List A = [] in e)) ≡ []
take_none zero zero = refl
take_none zero (suc m) = refl
take_none (suc n) zero = refl
take_none (suc n) (suc m) = refl

module _ {D Item : Type 0} {sel : Selector D} (items : D → List Item)
    (selects : Selects sel items) where
  picks_option :
      (val : Option D) (parts : List ℕ) (p : ℕ)
      → HasRows items val (length parts)
      → (val' : Option D) × (option_select sel val (positions (ids_from 0 parts p)) ≡ some val')
        × (option_items items val' ≡ select (option_items items val) (in_part p parts))
  picks_option none parts p rows = (none, refl, refl)
  picks_option (some d) parts p rows =
      let len = rows d refl in
      let below = ids_from-AllBelow 0 (length (items d)) p parts (omega (arith, len)) in
      let (d', run, got) = selects.picks d (ids_from 0 parts p) below in
      let all =
        gather-select (items d) (in_part p parts) (len ∙ sym (length-map parts (λ q. q == p))) in
      (some d', rw run refl, some_inj (sym got ∙ rw len at all))

  slice_option :
      (val : Option D) (n s e : ℕ)
      → s ≤ e
      → e ≤ n
      → HasRows items val n
      → (val' : Option D) × (option_select sel val (slice_of s e) ≡ some val')
        × (option_items items val' ≡ take (e - s) (drop s (option_items items val)))
        × HasRows items val' (e - s)
  slice_option none n s e le le' rows = (none, refl, sym (take_none (e - s) s), λ d same. cc)
  slice_option (some d) n s e le le' rows =
      let (d', run, got) = selects.slices d s e in
      (
        some d',
        rw run refl,
        got,
        λ d'' same.
            ap (λ x. length (items x)) (sym (some_inj same))
            ∙ omega (
              arith,
              ap (λ l. length l) got,
              length-take (e - s) (drop s (items d)),
              length-drop s (items d),
              rows d refl,
            ),
      )

  module _ (torch : Torch) (n : ℕ) where
    result_of-part :
        (val : Option D) (ids parts : List ℕ) (p : ℕ)
        → HasRows items val (length parts)
        → length ids ≡ length parts
        → (val' : Option D) × (result_of torch sel n val ids (torch.arange (length parts)) parts p
            ≡ some (val', select ids (in_part p parts)))
          × (option_items items val' ≡ select (option_items items val) (in_part p parts))
    unfolding result_of
    result_of-part val ids parts p rows len =
        let (val', run, got) = picks_option val parts p rows in
        let mask_len : length (in_part p parts) ≡ length parts = length-map parts (λ q. q == p) in
        let masks =
          torch.masked_select_law (range (length parts)) (in_part p parts)
          ∙ masked-eq-select (range (length parts)) (in_part p parts)
              (length-range_from 0 (length parts) ∙ sym mask_len) in
        let all = gather-select ids (in_part p parts) (len ∙ sym mask_len) in
        let reads = torch.index_law ids (ids_from 0 parts p) ∙ (rw len at all) in
        (val', rw (torch.arange_law (length parts), masks, run, reads) refl, got)

    IsSplit-chunk :
        (val : Option D) (ids parts : List ℕ)
        → HasRows items val (length parts)
        → length ids ≡ length parts
        → (res_list : Results D) × (traverse
              (result_of torch sel n val ids (torch.arange (length parts)) parts)
              (range n)
            ≡ some res_list)
          × IsSplit items n ids (option_items items val) parts res_list
    IsSplit-chunk val ids parts rows len =
        let result : ℕ → Option D × List ℕ =
          λ p. ((result_of-part val ids parts p rows len).0, select ids (in_part p parts)) in
        let at = λ (p : ℕ) (lt : p < n).
          get_elem?-map result (range n) p (0 + p) (get_elem?-range_from 0 n p lt)
          ∙ ap (λ q. some (result q)) (plain p) in
        (
          map result (range n),
          traverse-map _ result (λ p. (result_of-part val ids parts p rows len).1) (range n),
          record {
            sized = length-map (range n) result ∙ length-range_from 0 n;
            part_ids = λ p lt. ap (λ o. elim o [ none ↦ [] | some (v, is) ↦ is ]) (at p lt);
            part_items = λ p lt.
                ap (λ o. elim o [ none ↦ [] | some (v, is) ↦ option_items items v ]) (at p lt)
                ∙ (result_of-part val ids parts p rows len).2;
          },
        )
      where
        plain : (p : ℕ) → 0 + p ≡ p
        plain p = omega arith

    IsSplit-sized :
        (val : Option D) (ids parts : List ℕ) (k : ℕ)
        → length parts ≡ k
        → HasRows items val k
        → length ids ≡ k
        → (res_list : Results D) × (traverse
              (result_of torch sel n val ids (torch.arange k) parts)
              (range n)
            ≡ some res_list)
          × IsSplit items n ids (option_items items val) parts res_list
    IsSplit-sized val ids parts k e =
        subst
          (λ m.
            HasRows items val m
            → length ids ≡ m
            → (res_list : Results D) × (traverse
                  (result_of torch sel n val ids (torch.arange m) parts) (range n)
                ≡ some res_list)
              × IsSplit items n ids (option_items items val) parts res_list)
          e (IsSplit-chunk val ids parts)

    -- The data of a worker, and its partition function.
    module _ (c : ℕ) (val : Option D) (ids : List ℕ) (fn : PartitionFn) (P : ℕ → ℕ → Type 0)
        (gives : GivesParts fn ids P) (rows : HasRows items val (length ids)) where
      abbrev pub end_of : ℕ → ℕ
      end_of start = min (length ids) (start + c)

      chunk_runs :
          (start : ℕ) (val' : Option D) (parts : List ℕ) (res_list : Results D)
          → option_select sel val (slice_of start (end_of start)) ≡ some val'
          → fn (take (end_of start - start) (drop start ids)) start (end_of start) ≡ some parts
          → traverse
              (result_of torch sel n val'
                (take (end_of start - start) (drop start ids))
                (torch.arange (end_of start - start))
                parts)
              (range n)
            ≡ some res_list
          → chunk_results torch sel n c val ids fn start
            ≡ some (start + (end_of start - start), res_list)
      unfolding chunk_results
      chunk_runs start val' parts res_list run run' run'' =
          rw (run, torch.slice_law ids start (end_of start), run', run'') refl

      pub chunk_splits :
          (start : ℕ)
          → start ≤ length ids
          → (parts : List ℕ) × (res_list : Results D) × (length parts ≡ end_of start - start)
            × (chunk_results torch sel n c val ids fn start
                ≡ some (start + (end_of start - start), res_list))
            × IsSplit items n
                (take (end_of start - start) (drop start ids))
                (take (end_of start - start) (drop start (option_items items val)))
                parts
                res_list
            × ((j p : ℕ) → get_elem? parts j ≡ some p → P (start + j) p)
      chunk_splits start le =
          let e = end_of start in
          let (parts, run, len, from) = gives start e (omega arith) (omega arith) in
          let (val', run', got, rows') =
            slice_option val (length ids) start e (omega arith) (omega arith) rows in
          let size : length (take (e - start) (drop start ids)) ≡ e - start =
            omega (arith, length-take (e - start) (drop start ids), length-drop start ids) in
          let (res, run'', split) =
            IsSplit-sized val' (take (e - start) (drop start ids)) parts (e - start) len rows'
              size in
          (
            parts,
            res,
            len,
            chunk_runs start val' parts res run' run run'',
            subst (λ l. IsSplit items n (take (e - start) (drop start ids)) l parts res) got split,
            from,
          )
