-- ===== src/Utils/Common.antt =====
-- `index_select` and `merge_dict` of graphlearn_torch/python/utils/common.py. Data is a tensor,
-- nothing, or a tuple of data: the function that `index_select` is on each is made of those of its
-- parts.
use graphlearn_for_pytorch.Prelude.{
  ℕ, zero, suc, ◌-◌, ◌≤◌, ◌≡◌, refl, ap, ◌∙◌, Option, none, some, List, [], ◌∷◌, arith, length,
  get_elem?, take, drop, ◌>>=◌,
}
use graphlearn_for_pytorch.Torch.{
  Torch, gather, gather-cons, gather-cons_eq, gather-in_range, AllBelow, AllBelow-mono,
}

-- A pair of a start and an end, or a tensor of positions.
pub data Index : Type 0 where
  slice_of : ℕ → ℕ → Index
  positions : List ℕ → Index

abbrev pub Selector : Type 0 → Type 0
Selector D = D → Index → Option D

unfoldable pub tensor_select : (torch : Torch) {A : Type 0} → Selector (List A)
tensor_select torch xs (slice_of start end) = some (torch.slice xs start end)
tensor_select torch xs (positions index) = torch.index xs index

abbrev pub option_select : {D : Type 0} → Selector D → Selector (Option D)
option_select select none index = some none
option_select select (some d) index = select d index >>= λ selected. some (some selected)

abbrev pub pair_select : {D E : Type 0} → Selector D → Selector E → Selector (D × E)
pair_select select select' (d, e) index = do
  selected ← select d index
  selected' ← select' e index
  some (selected, selected')

abbrev pub zip : {A B : Type 0} → List A → List B → List (A × B)
zip [] ys = []
zip (x ∷ xs) [] = []
zip (x ∷ xs) (y ∷ ys) = (x, y) ∷ zip xs ys

module _ {A B : Type 0} where
  pub length-zip :
      (xs : List A) (ys : List B) → length xs ≡ length ys → length (zip xs ys) ≡ length xs
  length-zip [] ys h = refl
  length-zip (x ∷ xs) [] h = absurd (omega arith)
  length-zip (x ∷ xs) (y ∷ ys) h = ap suc (length-zip xs ys (omega arith))

  zip-le :
      (xs : List A) (ys : List B)
      → (length (zip xs ys) ≤ length xs) × (length (zip xs ys) ≤ length ys)
  zip-le [] ys = (omega arith, omega arith)
  zip-le (x ∷ xs) [] = (omega arith, omega arith)
  zip-le (x ∷ xs) (y ∷ ys) = let (a, b) = zip-le xs ys in (omega arith, omega arith)

  zip-take : (n : ℕ) (xs : List A) (ys : List B) → zip (take n xs) (take n ys) ≡ take n (zip xs ys)
  zip-take zero xs ys = refl
  zip-take (suc n) [] ys = refl
  zip-take (suc n) (x ∷ xs) [] = refl
  zip-take (suc n) (x ∷ xs) (y ∷ ys) = ap (λ l. (x, y) ∷ l) (zip-take n xs ys)

  zip-nil : (xs : List A) → zip xs (let e : List B = [] in e) ≡ []
  zip-nil [] = refl
  zip-nil (x ∷ xs) = refl

  zip-drop : (n : ℕ) (xs : List A) (ys : List B) → zip (drop n xs) (drop n ys) ≡ drop n (zip xs ys)
  zip-drop zero xs ys = refl
  zip-drop (suc n) [] ys = refl
  zip-drop (suc n) (x ∷ xs) [] = zip-nil (drop n xs)
  zip-drop (suc n) (x ∷ xs) (y ∷ ys) = zip-drop n xs ys

  get_elem?-zip :
      (xs : List A) (ys : List B) (i : ℕ) {x : A} {y : B}
      → get_elem? xs i ≡ some x
      → get_elem? ys i ≡ some y
      → get_elem? (zip xs ys) i ≡ some (x, y)
  get_elem?-zip [] ys i e e' = cc
  get_elem?-zip (x ∷ xs) [] i e e' = cc
  get_elem?-zip (x ∷ xs) (y ∷ ys) zero e e' = cc
  get_elem?-zip (x ∷ xs) (y ∷ ys) (suc i) e e' = get_elem?-zip xs ys i e e'

  gather-zip :
      (xs : List A) (ys : List B) (is : List ℕ) (xs' : List A) (ys' : List B)
      → gather xs is ≡ some xs'
      → gather ys is ≡ some ys'
      → gather (zip xs ys) is ≡ some (zip xs' ys')
  gather-zip xs ys [] xs' ys' e e' = let same : xs' ≡ [] = cc in rw same refl
  gather-zip xs ys (i ∷ is) xs' ys' e e' =
      let (a, rest, at, run, eq) = gather-cons xs i is xs' e in
      let (b, rest', at', run', eq') = gather-cons ys i is ys' e' in
      rw (eq, eq')
        (gather-cons_eq (zip xs ys) i is (get_elem?-zip xs ys i at at')
          (gather-zip xs ys is rest rest' run run'))

-- `select` is `index_select` on data whose items, row by row, are those of `items`.
pub record Selects {D Item : Type 0} (select : Selector D) (items : D → List Item) : Type 0 where
  pub slices :
      (d : D) (s e : ℕ)
      → (d' : D) × (select d (slice_of s e) ≡ some d')
        × (items d' ≡ take (e - s) (drop s (items d)))
  pub picks :
      (d : D) (is : List ℕ)
      → AllBelow (length (items d)) is
      → (d' : D) × (select d (positions is) ≡ some d') × (gather (items d) is ≡ some (items d'))

pub tensor_select-Selects :
    (torch : Torch) {A : Type 0} → Selects (tensor_select torch {A = A}) (λ xs. xs)
unfolding tensor_select
tensor_select-Selects torch = record {
  slices = λ d s e. (take (e - s) (drop s d), ap some (torch.slice_law d s e), refl);
  picks = λ d is below.
      let (ys, run) = gather-in_range d is below in (ys, torch.index_law d is ∙ run, run);
}

pub pair_select-Selects :
    {D E A B : Type 0} {select : Selector D} {select' : Selector E} (items : D → List A)
    (items' : E → List B)
    → Selects select items
    → Selects select' items'
    → Selects (pair_select select select') (λ d. zip (items d.0) (items' d.1))
pair_select-Selects {D} {E} {A} {B} {select} {select'} items items' ok ok' = record {
  slices = λ d s e.
      let (a, run, eq) = ok.slices d.0 s e in
      let (b, run', eq') = ok'.slices d.1 s e in
      (
        (a, b),
        rw (run, run') refl,
        rw (eq, eq')
            (zip-take (e - s) (drop s (items d.0)) (drop s (items' d.1))
              ∙ ap (take (e - s)) (zip-drop s (items d.0) (items' d.1))),
      );
  picks = λ d is below.
      let (le, le') = zip-le (items d.0) (items' d.1) in
      let (a, run, eq) = ok.picks d.0 is (AllBelow-mono _ _ is le below) in
      let (b, run', eq') = ok'.picks d.1 is (AllBelow-mono _ _ is le' below) in
      (
        (a, b),
        rw (run, run') refl,
        gather-zip (items d.0) (items' d.1) is (items a) (items' b) eq eq',
      );
}
