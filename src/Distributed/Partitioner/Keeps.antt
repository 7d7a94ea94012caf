-- ===== src/Distributed/Partitioner/Keeps.antt =====
-- What selection keeps of a worker's data.
use graphlearn_for_pytorch.Prelude.{
  ℕ, zero, suc, ◌-◌, ◌+◌, ◌/◌, ◌<◌, min, ◌≡◌, refl, ap, sym, ◌∙◌, Option, some, List, [], ◌∷◌, map,
  arith, ◌==◌, length, get_elem?, range, traverse, >>=-eq-some, some_inj,
}
use mathlib.Core.Path.{subst}
use graphlearn_for_pytorch.Torch.{Torch}
use graphlearn_for_pytorch.Utils.Common.{Selector, Index, slice_of, positions, option_select}
use graphlearn_for_pytorch.Distributed.Partitioner.{Results}
use graphlearn_for_pytorch.Distributed.Partitioner.Chunked.{
  PartitionFn, result_of, chunk_results, all_results, partition_by_chunk,
}

nothing_at : {A : Type 0} (xs : List A) (k : ℕ) (x : A) → xs ≡ [] → get_elem? xs k ≡ some x → ⊥
nothing_at xs k x e at = let at' = subst (λ l. get_elem? l k ≡ some x) e at in cc

first_or_rest :
    {A : Type 0} {Q : Type 0} (y : A) (ys : List A) (k : ℕ) (x : A)
    → get_elem? (y ∷ ys) k ≡ some x
    → (y ≡ x → Q)
    → ((j : ℕ) → get_elem? ys j ≡ some x → Q)
    → Q
first_or_rest y ys zero x at h h' = h (some_inj at)
first_or_rest y ys (suc k) x at h h' = h' k at

module _ {A B : Type 0} (f : A → Option B) where
  head_or_later :
      (x : A) (z : B) (zs : List B) (k : ℕ) (y : B)
      → f x ≡ some z
      → ((j : ℕ) → get_elem? zs j ≡ some y → (x' : A) × (f x' ≡ some y))
      → get_elem? (z ∷ zs) k ≡ some y
      → (x' : A) × (f x' ≡ some y)
  head_or_later x z zs zero y run rest at = (x, run ∙ at)
  head_or_later x z zs (suc k) y run rest at = rest k at

  traverse_at :
      (xs : List A) (ys : List B) (k : ℕ) (y : B)
      → traverse f xs ≡ some ys
      → get_elem? ys k ≡ some y
      → (x : A) × (f x ≡ some y)
  traverse_at [] ys k y e at = absurd (nothing_at ys k y (sym (some_inj e)) at)
  traverse_at (x ∷ xs) ys k y e at =
      let (z, run, e') = >>=-eq-some (f x) _ e in
      let (zs, run', e'') = >>=-eq-some (traverse f xs) _ e' in
      head_or_later x z zs k y run (λ j. traverse_at xs zs j y run')
        (subst (λ l. get_elem? l k ≡ some y) (sym (some_inj e'')) at)

module _ (torch : Torch) {D : Type 0} (sel : Selector D) (n : ℕ) (R : Option D → Type 0)
    (keeps : (val val' : Option D) (index : Index)
      → R val
      → option_select sel val index ≡ some val'
      → R val') where
  result_of-keeps :
      (val : Option D) (ids idx parts : List ℕ) (p : ℕ) (val' : Option D) (ids' : List ℕ)
      → R val
      → result_of torch sel n val ids idx parts p ≡ some (val', ids')
      → R val'
  unfolding result_of
  result_of-keeps val ids idx parts p val' ids' r e =
      let (chosen, _, e') = >>=-eq-some (torch.masked_select idx (map (λ q. q == p) parts)) _ e in
      let (v, run, e'') = >>=-eq-some (option_select sel val (positions chosen)) _ e' in
      let (is, _, e3) = >>=-eq-some (torch.index ids chosen) _ e'' in
      subst R (ap (λ x. x.0) (some_inj e3)) (keeps val v (positions chosen) r run)

  module _ (c : ℕ) (val : Option D) (ids : List ℕ) (fn : PartitionFn) (r : R val) where
    chunk_results-keeps :
        (start next : ℕ) (res : Results D) (p : ℕ) (val' : Option D) (ids' : List ℕ)
        → chunk_results torch sel n c val ids fn start ≡ some (next, res)
        → get_elem? res p ≡ some (val', ids')
        → R val'
    unfolding chunk_results
    chunk_results-keeps start next res p val' ids' e at =
        let end = min (length ids) (start + c) in
        let (v, run, e') = >>=-eq-some (option_select sel val (slice_of start end)) _ e in
        let (ps, _, e'') = >>=-eq-some (fn (torch.slice ids start end) start end) _ e' in
        let (rs, runs, e3) =
          >>=-eq-some
            (traverse
              (result_of torch sel n v (torch.slice ids start end) (torch.arange (end - start)) ps)
              (range n))
            _ e'' in
        let (q, one) =
          traverse_at
            (result_of torch sel n v (torch.slice ids start end) (torch.arange (end - start)) ps)
            (range n) rs p (val', ids') runs
            (ap (λ l. get_elem? l p) (ap (λ x. x.1) (some_inj e3)) ∙ at) in
        result_of-keeps v (torch.slice ids start end) (torch.arange (end - start)) ps q val' ids'
          (keeps val v (slice_of start end) r run) one

    all_results-keeps :
        (rounds start : ℕ) (chunks : List (Results D)) (i p : ℕ) (res : Results D) (val' : Option D)
        (ids' : List ℕ)
        → all_results torch sel n c val ids fn rounds start ≡ some chunks
        → get_elem? chunks i ≡ some res
        → get_elem? res p ≡ some (val', ids')
        → R val'
    unfolding all_results
    all_results-keeps zero start chunks i p res val' ids' e at at' =
        absurd (nothing_at chunks i res (sym (some_inj e)) at)
    all_results-keeps (suc rounds) start chunks i p res val' ids' e at at' =
        let (one, run, e') = >>=-eq-some (chunk_results torch sel n c val ids fn start) _ e in
        let (rest, runs, e'') =
          >>=-eq-some (all_results torch sel n c val ids fn rounds one.0) _ e' in
        first_or_rest one.1 rest i res
          (subst (λ l. get_elem? l i ≡ some res) (sym (some_inj e'')) at)
          (λ same.
            chunk_results-keeps start one.0 one.1 p val' ids' run
              (ap (λ l. get_elem? l p) same ∙ at'))
          (λ j at_j. all_results-keeps rounds one.0 rest j p res val' ids' runs at_j at')

    -- Every value of every chunk.
    pub partition_by_chunk-keeps :
        (chunks : List (Results D)) (i p : ℕ) (res : Results D) (val' : Option D) (ids' : List ℕ)
        → 0 < c
        → partition_by_chunk torch sel n c val ids fn ≡ some chunks
        → get_elem? chunks i ≡ some res
        → get_elem? res p ≡ some (val', ids')
        → R val'
    unfolding partition_by_chunk
    partition_by_chunk-keeps chunks i p res val' ids' pos e at at' =
        all_results-keeps ((length ids + c - 1) / c) 0 chunks i p res val' ids'
          (sym (loop_of c pos) ∙ e) at at'
      where
        loop_of :
            (m : ℕ)
            → 0 < m
            → partition_by_chunk torch sel n m val ids fn
              ≡ all_results torch sel n m val ids fn ((length ids + m - 1) / m) 0
        loop_of zero h = absurd (omega arith)
        loop_of (suc d) h = refl
