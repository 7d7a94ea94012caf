-- ===== src/Distributed/Partitioner/Aligned.antt =====
-- Edge columns of one length, under selection.
use graphlearn_for_pytorch.Prelude.{
  ◌-◌, ◌≡◌, ap, sym, ◌∙◌, Option, none, some, List, arith, length, drop, string_keys, triple_keys,
  length-take, length-drop, some_inj, >>=-eq-some,
}
use mathlib.Core.Path.{subst}
use graphlearn_for_pytorch.Torch.{Torch, length-gather}
use graphlearn_for_pytorch.Utils.Common.{
  Index, slice_of, positions, option_select, tensor_select, pair_select,
}
use graphlearn_for_pytorch.Distributed.Partitioner.Exchange.{
  Value, edge_columns, feature_columns, value_select,
}

-- Edge columns of one length.
abbrev pub AreAligned : {Row : Type 0} → Option (Value Row) → Type 0
AreAligned none = ⊥
AreAligned (some (edge_columns columns)) =
    (length columns.1.0 ≡ length columns.0) × (length columns.1.1 ≡ length columns.0)
AreAligned (some (feature_columns columns)) = ⊥

module _ (torch : Torch) where
  tensor_select-length :
      {A B : Type 0} (xs xs' : List A) (ys ys' : List B) (index : Index)
      → length ys ≡ length xs
      → tensor_select torch xs index ≡ some xs'
      → tensor_select torch ys index ≡ some ys'
      → length ys' ≡ length xs'
  unfolding tensor_select
  tensor_select-length xs xs' ys ys' (slice_of s e) len run run' = omega (
    arith,
    ap (λ l. length l) (sym (torch.slice_law xs s e) ∙ some_inj run),
    ap (λ l. length l) (sym (torch.slice_law ys s e) ∙ some_inj run'),
    length-take (e - s) (drop s xs),
    length-drop s xs,
    length-take (e - s) (drop s ys),
    length-drop s ys,
    len,
  )
  tensor_select-length xs xs' ys ys' (positions is) len run run' = omega (
    arith,
    length-gather xs is xs' (sym (torch.index_law xs is) ∙ run),
    length-gather ys is ys' (sym (torch.index_law ys is) ∙ run'),
  )

module _ (torch : Torch) {Row : Type 0} where
  pub select-AreAligned :
      (val val' : Option (Value Row)) (index : Index)
      → AreAligned val
      → option_select (value_select torch) val index ≡ some val'
      → AreAligned val'
  unfolding value_select
  select-AreAligned none val' index h e = absurd h
  select-AreAligned (some (feature_columns columns)) val' index h e = absurd h
  select-AreAligned (some (edge_columns (rows, rest0))) val' index h e =
      let (v, run, e') = >>=-eq-some (value_select torch (edge_columns (rows, rest0)) index) _ e in
      let (columns, run', e'') =
        >>=-eq-some
          (pair_select (tensor_select torch)
            (pair_select (tensor_select torch) (tensor_select torch)) (rows, rest0) index)
          _ run in
      let (rows', r, f) = >>=-eq-some (tensor_select torch rows index) _ run' in
      let (rest, rr, f') =
        >>=-eq-some (pair_select (tensor_select torch) (tensor_select torch) rest0 index) _ f in
      let (cols', c, f'') = >>=-eq-some (tensor_select torch rest0.0 index) _ rr in
      let (eids', i, f3) = >>=-eq-some (tensor_select torch rest0.1 index) _ f'' in
      let eq : some (edge_columns (rows', (cols', eids'))) ≡ val' =
        ap (λ x. some (edge_columns (rows', x))) (some_inj f3)
        ∙ ap (λ c. some (edge_columns c)) (some_inj f')
        ∙ ap some (some_inj e'')
        ∙ some_inj e' in
      subst AreAligned eq (
        tensor_select-length torch rows rows' rest0.0 cols' index h.0 r c,
        tensor_select-length torch rows rows' rest0.1 eids' index h.1 r i,
      )
