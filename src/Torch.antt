-- ===== src/Torch.antt =====
-- The tensor operations that the modelled code calls. They belong to PyTorch, which is not part of
-- the repository: they are the operations of a record, with what PyTorch documents of them as laws.
-- A one-dimensional tensor is the list of its items (a matrix of features the list of its rows),
-- elementwise arithmetic and comparison are `map`, and `none` is a raised error.
mod Reference
mod Gather
mod Scatter
pub mod Concrete
pub use Reference.*
pub use Gather.*
pub use Scatter.*
use graphlearn_for_pytorch.Prelude.{
  ℕ, ◌-◌, ◌≤◌, ◌<◌, ◌≡◌, ◌≢◌, refl, List, Bool, Option, some, length, get_elem?, range, range_from,
  replicate, take, drop,
}

pub record Torch : Type 1 where
  -- torch.arange(n), torch.arange(start, end)
  pub arange : ℕ → List ℕ
  pub arange_between : ℕ → ℕ → List ℕ
  -- torch.zeros(n)
  pub zeros : ℕ → List ℕ
  -- t[ids], t[start:end]
  pub index : {A : Type 0} → List A → List ℕ → Option (List A)
  pub slice : {A : Type 0} → List A → ℕ → ℕ → List A
  -- torch.masked_select(t, mask)
  pub masked_select : {A : Type 0} → List A → List Bool → Option (List A)
  -- torch.cat(tensors)
  pub cat : {A : Type 0} → List (List A) → Option (List A)
  -- t[ids] = v for a number v, and t[ids] = vals for a tensor
  pub index_fill : List ℕ → List ℕ → ℕ → Option (List ℕ)
  pub index_put : {A : Type 0} → List A → List ℕ → List A → Option (List A)
  -- torch.max(t).item()
  pub max : List ℕ → Option ℕ
  pub arange_law : (n : ℕ) → arange n ≡ range n
  pub arange_between_law : (s e : ℕ) → s ≤ e → arange_between s e ≡ range_from s (e - s)
  pub zeros_law : (n : ℕ) → zeros n ≡ replicate n 0
  pub index_law : {A : Type 0} (xs : List A) (is : List ℕ) → index xs is ≡ gather xs is
  pub slice_law : {A : Type 0} (xs : List A) (s e : ℕ) → slice xs s e ≡ take (e - s) (drop s xs)
  pub masked_select_law :
      {A : Type 0} (xs : List A) (mask : List Bool) → masked_select xs mask ≡ masked xs mask
  pub cat_law : {A : Type 0} (xss : List (List A)) → cat xss ≡ joined xss
  pub index_fill_law : (xs is : List ℕ) (v : ℕ) → index_fill xs is v ≡ filled xs is v
  -- With repeated indices the item that stays is not specified: some value written there.
  pub index_put_law :
      {A : Type 0} (xs : List A) (is : List ℕ) (vs : List A)
      → length is ≡ length vs
      → AllBelow (length xs) is
      → (ys : List A) × (index_put xs is vs ≡ some ys) × IsPut xs is vs ys
  pub max_law : (xs : List ℕ) → 0 < length xs → (m : ℕ) × (max xs ≡ some m) × IsMax xs m
