-- ===== src/Distributed/Partitioner/Joined.antt =====
-- `_partition_graph`, the end: the values of a part put together.
use graphlearn_for_pytorch.Prelude.{
  ℕ, suc, ◌<◌, ◌≡◌, refl, ap, sym, ◌∙◌, inl, inr, Bool, true, false, some, List, [], ◌∷◌, ◌++◌, map,
  arith, ◌==◌, if◌then◌else◌, length, concat, traverse, ==_iff, ◌&&◌,
}
use graphlearn_for_pytorch.Torch.{Torch, select}
use graphlearn_for_pytorch.Typing.{GraphPartitionData}
use graphlearn_for_pytorch.Utils.Common.{zip, length-zip}
use graphlearn_for_pytorch.Distributed.Partitioner.Sums.{weigh, weigh-append}
use graphlearn_for_pytorch.Distributed.Partitioner.Exchange.{Value, edge_columns, feature_columns}
use graphlearn_for_pytorch.Distributed.Partitioner.Methods.{
  DistRandomPartitioner, cat_graph, columns_of,
}
use graphlearn_for_pytorch.Distributed.Partitioner.Rows.{Item, edge_rows, value_items}
use graphlearn_for_pytorch.Distributed.Partitioner.Aligned.{AreAligned}

-- 1 for a value that is not edge columns of one length.
abbrev pub misaligned : {Row : Type 0} → Value Row → ℕ
misaligned (edge_columns columns) =
    if (length columns.1.0 == length columns.0) && (length columns.1.1 == length columns.0)
    then 0
    else 1
misaligned (feature_columns columns) = 1

module _ {Row : Type 0} where
  pub AreAligned-misaligned : (v : Value Row) → AreAligned (some v) → misaligned v ≡ 0
  AreAligned-misaligned (edge_columns columns) h =
      rw
        (
          (==_iff (length columns.1.0) (length columns.0)).1 h.0,
          (==_iff (length columns.1.1) (length columns.0)).1 h.1,
        )
        refl
  AreAligned-misaligned (feature_columns columns) h = absurd h

  misaligned-AreAligned : (v : Value Row) → misaligned v ≡ 0 → AreAligned (some v)
  misaligned-AreAligned (edge_columns columns) h = ground arith
  misaligned-AreAligned (feature_columns columns) h = absurd (omega arith)

-- The weight of an edge, as one of rows.
abbrev pub edge_weight : {Row : Type 0} → (ℕ × (ℕ × ℕ) → ℕ) → Item Row → ℕ
edge_weight f (inl edge) = f edge
edge_weight f (inr feature) = 0

pub weigh-map-inl :
    (Row : Type 0) (f : ℕ × (ℕ × ℕ) → ℕ) (xs : List (ℕ × (ℕ × ℕ)))
    → weigh (edge_weight {Row = Row} f) (map inl xs) ≡ weigh f xs
weigh-map-inl Row f [] = refl
weigh-map-inl Row f (x ∷ xs) = omega (arith, weigh-map-inl Row f xs)

pub select-map :
    {A B : Type 0} (f : A → B) (xs : List A) (mask : List Bool)
    → select (map f xs) mask ≡ map f (select xs mask)
select-map f [] mask = refl
select-map f (x ∷ xs) [] = refl
select-map f (x ∷ xs) (true ∷ mask) = ap (λ l. f x ∷ l) (select-map f xs mask)
select-map f (x ∷ xs) (false ∷ mask) = select-map f xs mask

zip-append :
    {A B : Type 0} (xs xs' : List A) (ys ys' : List B)
    → length ys ≡ length xs
    → zip (xs ++ xs') (ys ++ ys') ≡ zip xs ys ++ zip xs' ys'
zip-append [] xs' [] ys' h = refl
zip-append [] xs' (y ∷ ys) ys' h = absurd (omega arith)
zip-append (x ∷ xs) xs' [] ys' h = absurd (omega arith)
zip-append (x ∷ xs) xs' (y ∷ ys) ys' h =
    ap (λ l. (x, y) ∷ l) (zip-append xs xs' ys ys' (omega arith))

abbrev Columns : Type 0
Columns = List ℕ × (List ℕ × List ℕ)

abbrev OneLength : Columns → Type 0
OneLength c = (length c.1.0 ≡ length c.0) × (length c.1.1 ≡ length c.0)

abbrev AllOneLength : List Columns → Type 0
AllOneLength [] = Unit
AllOneLength (c ∷ cs) = OneLength c × AllOneLength cs

-- All the rows, all the columns and all the ids.
abbrev joined_columns : List Columns → Columns
joined_columns cs =
    (concat (map (λ r. r.0) cs), (concat (map (λ r. r.1.0) cs), concat (map (λ r. r.1.1) cs)))

edge_rows-joined :
    (cs : List Columns)
    → AllOneLength cs
    → edge_rows (joined_columns cs) ≡ concat (map edge_rows cs)
edge_rows-joined [] h = refl
edge_rows-joined (c ∷ cs) h =
    let rest = joined_columns cs in
    let inner = zip-append c.1.0 rest.1.0 c.1.1 rest.1.1 (h.0.1 ∙ sym h.0.0) in
    let len = length-zip c.1.0 c.1.1 (h.0.0 ∙ sym h.0.1) ∙ h.0.0 in
    ap (zip (c.0 ++ rest.0)) inner
    ∙ zip-append c.0 rest.0 (zip c.1.0 c.1.1) (zip rest.1.0 rest.1.1) len
    ∙ ap (λ l. edge_rows c ++ l) (edge_rows-joined cs h.1)

weigh-concat :
    {A B : Type 0} (f : B → ℕ) (g : A → List B) (xs : List A)
    → weigh f (concat (map g xs)) ≡ weigh (λ x. weigh f (g x)) xs
weigh-concat f g [] = refl
weigh-concat f g (x ∷ xs) =
    omega (arith, weigh-append f (g x) (concat (map g xs)), weigh-concat f g xs)

module _ (torch : Torch) {Row : Type 0} (self : DistRandomPartitioner Row) where
  all_columns :
      (values : List (Value Row))
      → weigh misaligned values ≡ 0
      → (cs : List Columns) × (traverse (columns_of torch self) values ≡ some cs)
        × (length cs ≡ length values)
        × AllOneLength cs
        × ((f : ℕ × (ℕ × ℕ) → ℕ)
            → weigh (λ c. weigh f (edge_rows c)) cs
              ≡ weigh (λ v. weigh (edge_weight f) (value_items v)) values)
  all_columns [] h = ([], refl, refl, tt, λ f. refl)
  all_columns (edge_columns c ∷ values) h =
      let here : misaligned {Row = Row} (edge_columns c) ≡ 0 = omega arith in
      let (cs, run, len, ok, weights) = all_columns values (omega arith) in
      (
        c ∷ cs,
        rw run refl,
        ap suc len,
        (misaligned-AreAligned {Row = Row} (edge_columns c) here, ok),
        λ f. omega (arith, weights f, weigh-map-inl Row f (edge_rows c)),
      )
  all_columns (feature_columns c ∷ values) h = absurd (omega arith)

  -- The part that is made of some values has the edges of all of them.
  pub cat_graph-rows :
      (values : List (Value Row))
      → weigh misaligned values ≡ 0
      → 0 < length values
      → (part : GraphPartitionData) × (cat_graph torch self values ≡ some part)
        × ((f : ℕ × (ℕ × ℕ) → ℕ)
            → weigh f (edge_rows (part.edge_index.0, (part.edge_index.1, part.eids)))
              ≡ weigh (λ v. weigh (edge_weight f) (value_items v)) values)
  unfolding cat_graph
  cat_graph-rows values h pos =
      let (cs, run, len, ok, weights) = all_columns values h in
      (
        record {
          edge_index = ((joined_columns cs).0, (joined_columns cs).1.0);
          eids = (joined_columns cs).1.1;
        },
        rw
            (
              run,
              cat_columns cs (λ r. r.0) (omega (arith, len)),
              cat_columns cs (λ r. r.1.0) (omega (arith, len)),
              cat_columns cs (λ r. r.1.1) (omega (arith, len)),
            )
            refl,
        λ f. ap (weigh f) (edge_rows-joined cs ok) ∙ weigh-concat f edge_rows cs ∙ weights f,
      )
    where
      cat_columns :
          (cs : List Columns) (g : Columns → List ℕ)
          → 0 < length cs
          → torch.cat (map g cs) ≡ some (concat (map g cs))
      cat_columns [] g h = absurd (omega arith)
      cat_columns (c ∷ cs) g h = torch.cat_law (map g (c ∷ cs))
