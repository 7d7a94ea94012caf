-- ===== src/Torch/Scatter.antt =====
-- Writing into a tensor.
use graphlearn_for_pytorch.Prelude.{
  ◌≢◌, ◌⊎◌, inl, inr, Bool-cases, ==_iff, some_inj, zero, suc, ap, true, ℕ, ◌<◌, ◌≡◌, refl, List,
  [], ◌∷◌, Bool, false, some, arith, ◌==◌, ◌||◌, if◌then◌else◌, length, get_elem?, set, length-set,
  get_elem?-set_self, get_elem?-set_ne, lt→ltb,
}
use graphlearn_for_pytorch.Torch.Reference.{filled, AllBelow}

-- `j in is`
abbrev pub contains : List ℕ → ℕ → Bool
contains [] j = false
contains (i ∷ is) j = i == j || contains is j

module _ {A : Type 0} where
  pub filled-cons :
      (xs : List A) (i : ℕ) (is : List ℕ) (v : A) (ys : List A)
      → filled xs (i ∷ is) v ≡ some ys
      → (i < length xs) × (filled (set xs i v) is v ≡ some ys)
  filled-cons xs i is v ys h = ground arith

  pub filled-total :
      (xs : List A) (is : List ℕ) (v : A)
      → AllBelow (length xs) is
      → (ys : List A) × (filled xs is v ≡ some ys)
  filled-total xs [] v h = (xs, refl)
  filled-total xs (i ∷ is) v h =
      rw (lt→ltb i (length xs) h.0) (filled-total (set xs i v) is v (rw length-set h.1))

  pub length-filled :
      (xs : List A) (is : List ℕ) (v : A) (ys : List A)
      → filled xs is v ≡ some ys
      → length ys ≡ length xs
  length-filled xs [] v ys h = ground arith
  length-filled xs (i ∷ is) v ys h =
      let (_, rest) = filled-cons xs i is v ys h in
      omega (arith, length-filled (set xs i v) is v ys rest, length-set xs i v)

  -- The value stands at the indices, and what stands elsewhere is kept.
  pub get_elem?-filled :
      (xs : List A) (is : List ℕ) (v : A) (ys : List A) (j : ℕ)
      → filled xs is v ≡ some ys
      → get_elem? ys j ≡ (if contains is j then some v else get_elem? xs j)
  get_elem?-filled xs [] v ys j h = ground arith
  get_elem?-filled xs (i ∷ is) v ys j h =
      let (lt, rest) = filled-cons xs i is v ys h in
      ground (
        arith,
        get_elem?-filled (set xs i v) is v ys j rest,
        get_elem?-set_self xs i v,
        get_elem?-set_ne xs i j v,
      )

absent_cons :
    (i : ℕ) (is : List ℕ) (j : ℕ)
    → i ≢ j
    → ((k : ℕ) → get_elem? is k ≢ some j)
    → (k : ℕ) → get_elem? (i ∷ is) k ≢ some j
absent_cons i is j ne absent zero e = ne (some_inj e)
absent_cons i is j ne absent (suc k) e = absent k e

-- Where an index occurs, or that it does not.
pub find_index :
    (is : List ℕ) (j : ℕ)
    → ((k : ℕ) × (get_elem? is k ≡ some j)) ⊎ ((k : ℕ) → get_elem? is k ≢ some j)
find_index [] j = inr (λ k e. cc)
find_index (i ∷ is) j = elim (Bool-cases (i == j)) [
  | inl e ↦ inl (0, ap some ((==_iff i j).0 e))
  | inr e ↦ elim (find_index is j) [
    | inl (k, at) ↦ inl (suc k, at)
    | inr absent ↦ inr (absent_cons i is j (λ eq. cc ((==_iff i j).1 eq)) absent)
  ]
]

-- A number does not stand where none of its positions is.
pub contains-absent :
    (is : List ℕ) (j : ℕ) → ((k : ℕ) → get_elem? is k ≢ some j) → contains is j ≡ false
contains-absent [] j h = refl
contains-absent (i ∷ is) j h = ground (arith, contains-absent is j (λ k. h (suc k)), h 0)

pub contains_at : (is : List ℕ) (j k : ℕ) → get_elem? is k ≡ some j → contains is j ≡ true
contains_at [] j k e = cc
contains_at (i ∷ is) j zero e = ground arith
contains_at (i ∷ is) j (suc k) e = ground (arith, contains_at is j k e)
