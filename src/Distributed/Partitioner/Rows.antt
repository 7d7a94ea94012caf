-- ===== src/Distributed/Partitioner/Rows.antt =====
-- The rows of the values that workers send: edges with their ids, and features with theirs.
use graphlearn_for_pytorch.Prelude.{
  ℕ, ◌-◌, ◌≡◌, refl, ap, sym, ◌∙◌, ◌⊎◌, inl, inr, some, List, [], ◌∷◌, map, length, take, drop,
  length-map, map-take, map-drop, get_elem?-map,
}
use mathlib.Core.Path.{subst}
use graphlearn_for_pytorch.Torch.{Torch, gather, gather-cons, gather-cons_eq, AllBelow}
use graphlearn_for_pytorch.Utils.Common.{
  Selector, Selects, slice_of, positions, zip, tensor_select, pair_select, tensor_select-Selects,
  pair_select-Selects,
}
use graphlearn_for_pytorch.Distributed.Partitioner.Exchange.{
  Value, edge_columns, feature_columns, value_select,
}

-- An edge: its row, its column and its id. A feature: its row and its id.
abbrev pub Item : Type 0 → Type 0
Item Row = (ℕ × (ℕ × ℕ)) ⊎ (Row × ℕ)

abbrev pub edge_rows : List ℕ × (List ℕ × List ℕ) → List (ℕ × (ℕ × ℕ))
edge_rows columns = zip columns.0 (zip columns.1.0 columns.1.1)

abbrev pub feature_rows : {Row : Type 0} → List Row × List ℕ → List (Row × ℕ)
feature_rows columns = zip columns.0 columns.1

abbrev pub value_items : {Row : Type 0} → Value Row → List (Item Row)
value_items (edge_columns columns) = map inl (edge_rows columns)
value_items (feature_columns columns) = map inr (feature_rows columns)

gather-map :
    {A B : Type 0} (f : A → B) (xs : List A) (is : List ℕ) (ys : List A)
    → gather xs is ≡ some ys
    → gather (map f xs) is ≡ some (map f ys)
gather-map f xs [] ys e = let same : ys ≡ [] = cc in rw same refl
gather-map f xs (i ∷ is) ys e =
    let (y, rest, at, run, eq) = gather-cons xs i is ys e in
    rw eq (gather-cons_eq (map f xs) i is (get_elem?-map f xs i y at) (gather-map f xs is rest run))

-- What `Selects` asks for one value.
abbrev SelectsAt : {D Item : Type 0} → Selector D → (D → List Item) → D → Type 0
SelectsAt {D} select items d =
    ((s e : ℕ)
      → (d' : D) × (select d (slice_of s e) ≡ some d')
        × (items d' ≡ take (e - s) (drop s (items d))))
    × ((is : List ℕ)
        → AllBelow (length (items d)) is
        → (d' : D) × (select d (positions is) ≡ some d') × (gather (items d) is ≡ some (items d')))

-- The same data under a name, with its rows marked.
wrapped-Selects :
    {D E A B : Type 0} {select : Selector D} {items : D → List A} (wrap : D → E) (mark : A → B)
    (select' : Selector E) (items' : E → List B)
    → Selects select items
    → ((d : D) → items' (wrap d) ≡ map mark (items d))
    → (d : D)
    → ((index : _) (d' : D) → select d index ≡ some d' → select' (wrap d) index ≡ some (wrap d'))
    → SelectsAt select' items' (wrap d)
wrapped-Selects {select} {items} wrap mark select' items' ok rows d runs = (
  λ s e.
      let (d', run, eq) = ok.slices d s e in
      (
        wrap d',
        runs (slice_of s e) d' run,
        rows d'
            ∙ ap (map mark) eq
            ∙ map-take mark (e - s) (drop s (items d))
            ∙ ap (take (e - s)) (map-drop mark s (items d))
            ∙ ap (λ l. take (e - s) (drop s l)) (sym (rows d)),
      ),
  λ is below.
      let len = ap (λ l. length l) (rows d) ∙ length-map (items d) mark in
      let (d', run, eq) = ok.picks d is (subst (λ m. AllBelow m is) len below) in
      (
        wrap d',
        runs (positions is) d' run,
        ap (λ l. gather l is) (rows d)
            ∙ gather-map mark (items d) is (items d') eq
            ∙ ap some (sym (rows d')),
      ),
)

module _ (torch : Torch) {Row : Type 0} where
  pub value_select-Selects : Selects (value_select torch {Row = Row}) value_items
  unfolding value_select
  value_select-Selects = record { slices = λ d. (laws d).0; picks = λ d. (laws d).1 }
    where
      columns :
          Selects
            (pair_select
              (tensor_select torch)
              (pair_select (tensor_select torch) (tensor_select torch)))
            edge_rows
      columns =
          pair_select-Selects (λ xs. xs) (λ d. zip d.0 d.1) (tensor_select-Selects torch)
            (pair_select-Selects (λ xs. xs) (λ xs. xs) (tensor_select-Selects torch)
              (tensor_select-Selects torch))

      features :
          Selects
            (pair_select (tensor_select torch {A = Row}) (tensor_select torch {A = ℕ}))
            feature_rows
      features =
          pair_select-Selects (λ xs. xs) (λ xs. xs) (tensor_select-Selects torch)
            (tensor_select-Selects torch)

      laws : (d : Value Row) → SelectsAt (value_select torch) value_items d
      laws (edge_columns c) =
          wrapped-Selects edge_columns inl (value_select torch) value_items columns (λ d. refl) c
            (λ index d' e. rw e refl)
      laws (feature_columns c) =
          wrapped-Selects feature_columns inr (value_select torch) value_items features (λ d. refl)
            c (λ index d' e. rw e refl)
