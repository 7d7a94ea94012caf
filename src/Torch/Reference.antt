-- ===== src/Torch/Reference.antt =====
-- What PyTorch documents of its operations, as functions and predicates on lists.
use graphlearn_for_pytorch.Prelude.{
  ℕ, suc, ◌<◌, ◌≡◌, ◌≢◌, List, [], ◌∷◌, ◌++◌, Bool, true, false, Option, none, some, ltb,
  if◌then◌else◌, length, get_elem?, set, concat, ◌>>=◌, traverse,
}

module _ {ℓ} {A : Type ℓ} where
  -- An index out of range raises.
  abbrev pub gather : List A → List ℕ → Option (List A)
  gather xs is = traverse (get_elem? xs) is

  -- The items where the mask is true; the two shapes must agree.
  abbrev pub masked : List A → List Bool → Option (List A)
  masked [] [] = some []
  masked [] (b ∷ mask) = none
  masked (x ∷ xs) [] = none
  masked (x ∷ xs) (true ∷ mask) = masked xs mask >>= λ rest. some (x ∷ rest)
  masked (x ∷ xs) (false ∷ mask) = masked xs mask

  -- A list of no tensors cannot be concatenated.
  abbrev pub joined : List (List A) → Option (List A)
  joined [] = none
  joined (xs ∷ xss) = some (xs ++ concat xss)

  abbrev pub filled : List A → List ℕ → A → Option (List A)
  filled xs [] v = some xs
  filled xs (i ∷ is) v = if ltb i (length xs) then filled (set xs i v) is v else none

  -- `ys` is `xs` after a write of `vs` at `is`.
  pub record IsPut (xs : List A) (is : List ℕ) (vs ys : List A) : Type ℓ where
    pub size : length ys ≡ length xs
    pub kept : (j : ℕ) → ((k : ℕ) → get_elem? is k ≢ some j) → get_elem? ys j ≡ get_elem? xs j
    pub written :
        (k j : ℕ)
        → get_elem? is k ≡ some j
        → (k' : ℕ) × (get_elem? is k' ≡ some j) × (get_elem? ys j ≡ get_elem? vs k')

abbrev pub AllBelow : ℕ → List ℕ → Type 0
AllBelow n [] = Unit
AllBelow n (i ∷ is) = (i < n) × AllBelow n is

pub record IsMax (xs : List ℕ) (m : ℕ) : Type 0 where
  pub bound : AllBelow (suc m) xs
  pub attained : (k : ℕ) × (get_elem? xs k ≡ some m)
