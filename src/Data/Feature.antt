-- ===== src/Data/Feature.antt =====
-- `Feature` of graphlearn_torch/python/data/feature.py: the lookup in CPU memory, and how the
-- tensor is split over devices. Handles for other processes are not modelled.
use graphlearn_for_pytorch.Prelude.{
  ℕ, zero, suc, ◌+◌, ◌-◌, ◌/◌, ◌≡◌, refl, sym, ◌∙◌, Option, none, some, List, [], ◌∷◌, ◌++◌, arith,
  length, get_elem?, drop, concat, ◌>>=◌, traverse, Option-cases, inl, inr, take_all,
  take-append-drop, drop-add, length-drop,
}
use mathlib.Core.List.{append-nil}
use graphlearn_for_pytorch.Torch.{Torch, gather}

pub record Feature (Row : Type 0) : Type 0 where
  pub feature_tensor : List Row
  pub id2index : Option (List ℕ)

module _ (torch : Torch) {Row : Type 0} where
  -- `cpu_get`
  unfoldable pub cpu_get : Feature Row → List ℕ → Option (List Row)
  cpu_get feature ids = elim feature.id2index [
    | none ↦ torch.index feature.feature_tensor ids
    | some mapping ↦ torch.index mapping ids >>= λ at. torch.index feature.feature_tensor at
  ]

  -- `_split`, with the size of the device part computed from the ratio.
  unfoldable pub split : List Row → ℕ → List Row × List Row
  split feature_tensor device_part_size = (
    torch.slice feature_tensor 0 device_part_size,
    torch.slice feature_tensor device_part_size (length feature_tensor),
  )

  -- The blocks of the devices of one group: all but the last have `block_size` rows.
  unfoldable pub device_blocks : List Row → ℕ → ℕ → ℕ → List (List Row)
  device_blocks device_part block_size cur_pos zero = []
  device_blocks device_part block_size cur_pos (suc zero) =
      torch.slice device_part cur_pos (length device_part) ∷ []
  device_blocks device_part block_size cur_pos (suc (suc n)) =
      torch.slice device_part cur_pos (cur_pos + block_size)
      ∷ device_blocks device_part block_size (cur_pos + block_size) (suc n)

  device_blocks-from :
      (device_part : List Row) (block_size cur_pos n : ℕ)
      → concat (device_blocks device_part block_size cur_pos (suc n)) ≡ drop cur_pos device_part
  unfolding device_blocks
  device_blocks-from part b pos zero = rw torch.slice_law (
      append-nil _
      ∙ take_all (length part - pos) (drop pos part) (omega (arith, length-drop pos part)))
  device_blocks-from part b pos (suc n) =
      let e : pos + b - pos ≡ b = omega arith in
      rw (torch.slice_law, e, device_blocks-from part b (pos + b) n, drop-add pos b part)
        (take-append-drop b (drop pos part))

  -- The blocks of a group, in the order of its devices, followed by the CPU part, are the whole
  -- feature tensor, for every size of the device part and every group with a device.
  pub concat-device_blocks :
      (feature_tensor : List Row) (device_part_size n : ℕ)
      → concat (
            device_blocks
              (split feature_tensor device_part_size).0
              (length (split feature_tensor device_part_size).0 / suc n)
              0
              (suc n))
          ++ (split feature_tensor device_part_size).1
        ≡ feature_tensor
  unfolding split
  concat-device_blocks t size n =
      let front = torch.slice t 0 size in
      let e : size - 0 ≡ size = omega arith in
      rw
        (
          device_blocks-from front (length front / suc n) 0 n,
          torch.slice_law t 0 size,
          e,
          torch.slice_law,
          take_all (length t - size) (drop size t) (omega (arith, length-drop size t)),
        )
        (take-append-drop size t)

-- The row of one id in a store.
abbrev pub row_at : {Row : Type 0} → Feature Row → ℕ → Option Row
row_at f id = elim f.id2index [
  | none ↦ get_elem? f.feature_tensor id
  | some mapping ↦ get_elem? mapping id >>= λ i. get_elem? f.feature_tensor i
]

bind_none : {A B : Type 0} (o : Option A) → (o >>= λ a. let n : Option B = none in n) ≡ none
bind_none none = refl
bind_none (some a) = refl

gather-gather :
    {A : Type 0} (xs : List A) (mapping is : List ℕ)
    → (gather mapping is >>= λ at. gather xs at)
      ≡ traverse (λ id. get_elem? mapping id >>= λ i. get_elem? xs i) is
gather-gather xs mapping [] = refl
gather-gather xs mapping (i ∷ is) =
    let ih = gather-gather xs mapping is in
    elim (Option-cases (get_elem? mapping i)) [
      | inl e ↦ rw e
      | inr (m, e) ↦ elim (Option-cases (gather mapping is)) [
        | inl n ↦ let dead = sym (rw n at ih) in rw (e, n, dead) (sym (bind_none (get_elem? xs m)))
        | inr (ats, n) ↦ rw (e, n) (rw (rw n at ih))
      ]
    ]

-- A lookup in CPU memory reads the row of each id.
pub cpu_get-eq-traverse :
    (torch : Torch) {Row : Type 0} (f : Feature Row) (ids : List ℕ)
    → cpu_get torch f ids ≡ traverse (row_at f) ids
unfolding cpu_get
cpu_get-eq-traverse torch f ids = elim (Option-cases f.id2index) [
  | inl plain ↦ rw (plain, torch.index_law)
  | inr (mapping, e) ↦ rw e (simp torch.index_law (gather-gather f.feature_tensor mapping ids))
]
