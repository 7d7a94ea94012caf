-- ===== src/Torch/Concrete.antt =====
-- One implementation of the tensor operations, with which the tests run: writes with repeated
-- indices happen in order, so the last one stays.
use graphlearn_for_pytorch.Prelude.{
  ℕ, zero, suc, ◌-◌, ◌≤◌, ◌<◌, ◌≡◌, ◌≢◌, refl, ap, sym, ◌∙◌, Option, none, some, List, [], ◌∷◌,
  ◌==◌, leb, if◌then◌else◌, inl, inr, ◌⊎◌, arith, length, get_elem?, set, take, drop, replicate,
  range, range_from, length-set, get_elem?-set_self, get_elem?-set_ne, some_inj,
}
use graphlearn_for_pytorch.Torch.{
  Torch, gather, masked, joined, filled, IsPut, AllBelow, IsMax, find_index,
}

abbrev pub put_in_order : {A : Type 0} → List A → List ℕ → List A → List A
put_in_order xs [] vs = xs
put_in_order xs (i ∷ is) [] = xs
put_in_order xs (i ∷ is) (v ∷ vs) = put_in_order (set xs i v) is vs

only_first :
    (i : ℕ) (is : List ℕ) (j k : ℕ)
    → get_elem? (i ∷ is) k ≡ some j
    → ((k : ℕ) → get_elem? is k ≢ some j)
    → i ≡ j
only_first i is j zero e absent = some_inj e
only_first i is j (suc k) e absent = absurd (absent k e)

module _ {A : Type 0} where
  pub put_in_order-IsPut :
      (xs : List A) (is : List ℕ) (vs : List A)
      → length is ≡ length vs
      → AllBelow (length xs) is
      → IsPut xs is vs (put_in_order xs is vs)
  put_in_order-IsPut xs [] vs h below = record {
    size = refl;
    kept = λ j absent. refl;
    written = λ k j e. absurd (cc);
  }
  put_in_order-IsPut xs (i ∷ is) [] h below = absurd (omega arith)
  put_in_order-IsPut xs (i ∷ is) (v ∷ vs) h below =
      let rest = put_in_order-IsPut (set xs i v) is vs (omega arith) (rw length-set below.1) in
      record {
        size = rest.size ∙ length-set xs i v;
        kept = λ j absent.
            rest.kept j (λ k e. absent (suc k) e)
            ∙ get_elem?-set_ne xs i j v (λ e. absent 0 (ap some e));
        written = λ k j at. elim (find_index is j) [
          | inl (k', at') ↦ let (k'', at'', same) = rest.written k' j at' in (suc k'', at'', same)
          | inr absent ↦
              let eq = only_first i is j k at absent in
              let here = get_elem?-set_self xs i v below.0 in
              (0, ap some eq, rest.kept j absent ∙ (rw (← eq) here))
        ];
      }

pick : ℕ → ℕ → ℕ
pick m x = if leb m x then x else m

pick_lem : (m x : ℕ) → (m ≤ pick m x) × (x ≤ pick m x) × ((pick m x ≡ m) ⊎ (pick m x ≡ x))
unfolding pick
pick_lem m x = ground arith

max_of : ℕ → List ℕ → ℕ
unfolding pick
max_of m [] = m
max_of m (x ∷ xs) = max_of (pick m x) xs

record MaxOf (m : ℕ) (xs : List ℕ) : Type 0 where
  start : m ≤ max_of m xs
  bound : AllBelow (suc (max_of m xs)) xs
  attained : (max_of m xs ≡ m) ⊎ ((k : ℕ) × (get_elem? xs k ≡ some (max_of m xs)))

max_of_lem : (m : ℕ) (xs : List ℕ) → MaxOf m xs
unfolding max_of
max_of_lem m [] = record { start = omega arith; bound = tt; attained = inl refl }
max_of_lem m (x ∷ xs) =
    let rest = max_of_lem (pick m x) xs in
    let (above, above', which) = pick_lem m x in
    record {
      start = omega (arith, rest.start);
      bound = (omega (arith, rest.start), rest.bound);
      attained = elim rest.attained [
        | inl same ↦ elim which [
          | inl old ↦ inl (same ∙ old)
          | inr new ↦ inr (0, ap some (sym new ∙ sym same))
        ]
        | inr (k, at) ↦ inr (suc k, at)
      ];
    }

unfoldable pub largest : List ℕ → Option ℕ
unfolding max_of
largest [] = none
largest (x ∷ xs) = some (max_of x xs)

pub largest-IsMax : (xs : List ℕ) → 0 < length xs → (m : ℕ) × (largest xs ≡ some m) × IsMax xs m
unfolding largest
largest-IsMax [] h = absurd (omega arith)
largest-IsMax (x ∷ xs) h =
    let found = max_of_lem x xs in
    (
      max_of x xs,
      refl,
      record {
        bound = (omega (arith, found.start), found.bound);
        attained = elim found.attained [ inl e ↦ (0, ap some (sym e)) | inr (k, at) ↦ (suc k, at) ];
      },
    )

-- Tensors of different lengths are refused.
abbrev pub put : {A : Type 0} → List A → List ℕ → List A → Option (List A)
put xs is vs = if length is == length vs then some (put_in_order xs is vs) else none

pub put_law :
    {A : Type 0} (xs : List A) (is : List ℕ) (vs : List A)
    → length is ≡ length vs
    → AllBelow (length xs) is
    → (ys : List A) × (put xs is vs ≡ some ys) × IsPut xs is vs ys
put_law xs is vs h below =
    (put_in_order xs is vs, ground arith, put_in_order-IsPut xs is vs h below)

unfoldable pub concrete : Torch
unfolding largest
concrete = record {
  arange = range;
  arange_between = λ s e. range_from s (e - s);
  zeros = λ n. replicate n 0;
  index = gather;
  slice = λ xs s e. take (e - s) (drop s xs);
  masked_select = masked;
  cat = joined;
  index_fill = filled;
  index_put = put;
  max = largest;
  arange_law = λ n. refl;
  arange_between_law = λ s e h. refl;
  zeros_law = λ n. refl;
  index_law = λ xs is. refl;
  slice_law = λ xs s e. refl;
  masked_select_law = λ xs mask. refl;
  cat_law = λ xss. refl;
  index_fill_law = λ xs is v. refl;
  index_put_law = put_law;
  max_law = largest-IsMax;
}
