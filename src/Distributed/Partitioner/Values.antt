-- ===== src/Distributed/Partitioner/Values.antt =====
-- The values that the workers of a group send, weighed.
use graphlearn_for_pytorch.Prelude.{
  ℕ, zero, suc, ◌+◌, ◌<◌, ◌≡◌, ◌≢◌, refl, ap, sym, ◌∙◌, Bool, true, false, Option, none, some, List,
  [], ◌∷◌, map, arith, inl, inr, ◌==◌, if◌then◌else◌, get_elem?, range, >>=-eq-some, some_inj,
  ==_iff, ==_refl, ==_ne,
}
use graphlearn_for_pytorch.Torch.{Torch}
use graphlearn_for_pytorch.Distributed.Partitioner.{
  Manager, Update, val_update, pb_update, Results, updates, broadcast_pb, update_part_val,
  update_pb, perform, receiver, put_at, Group, Step, performed, next_chunk, Reachable, at_first,
  later, Finished, new_group, reset,
}
use graphlearn_for_pytorch.Distributed.Partitioner.Sums.{
  weigh, weigh-append, weigh_same, total, total_same, ==_cases, put_at_self, put_at_other,
}
use graphlearn_for_pytorch.Distributed.Partitioner.Conserve.{
  weigh_results, load, weigh-updates, left, left_performed, left_chunk,
}
use graphlearn_for_pytorch.Distributed.Partitioner.Runs.{
  ArePlaced, process-updates, Reachable-ArePlaced, Finished-left,
}

module _ {V : Type 0} (f : V → ℕ) where
  abbrev pub option_weight : Option V → ℕ
  option_weight none = 0
  option_weight (some v) = f v

  -- The weight of a call that brings a value to the part `p`.
  abbrev pub value_weight : ℕ → Update V → ℕ
  value_weight p (val_update worker val target_pidx) = if worker == p then option_weight val else 0
  value_weight p (pb_update worker val_idx target_pidx) = 0

  -- The weight of the value that the results of a chunk have for the part `p`.
  abbrev pub sent : ℕ → Results V → ℕ
  sent p res_list = elim (get_elem? res_list p) [ none ↦ 0 | some (val, ids) ↦ option_weight val ]

  broadcast-weightless :
      (p : ℕ) (ids : List ℕ) (t : ℕ) (pidxs : List ℕ)
      → weigh (value_weight p) (map (λ pidx. pb_update pidx ids t) pidxs) ≡ 0
  broadcast-weightless p ids t [] = refl
  broadcast-weightless p ids t (pidx ∷ pidxs) = omega (arith, broadcast-weightless p ids t pidxs)

  books-weightless :
      (n : ℕ) (generate_pb : Bool) (p : ℕ) (ids : List ℕ) (t : ℕ)
      → weigh (value_weight p) (if generate_pb then broadcast_pb n ids t else []) ≡ 0
  books-weightless n true p ids t = broadcast-weightless p ids t (range n)
  books-weightless n false p ids t = refl

  none_before :
      (n : ℕ) (generate_pb : Bool) (p s : ℕ) (res_list : Results V)
      → p < s
      → weigh (value_weight p) (updates n generate_pb s res_list) ≡ 0
  none_before n generate_pb p s [] lt = refl
  none_before n generate_pb p s ((val, ids) ∷ res_list) lt = omega (
    arith,
    weigh-updates n generate_pb (value_weight p) s val ids res_list,
    ap (λ b. if b then option_weight val else 0) (==_ne s p (λ e. omega (arith, e))),
    books-weightless n generate_pb p ids s,
    none_before n generate_pb p (suc s) res_list (omega arith),
  )

  updates_from :
      (n : ℕ) (generate_pb : Bool) (s j q : ℕ) (res_list : Results V)
      → q ≡ s + j
      → weigh (value_weight q) (updates n generate_pb s res_list) ≡ sent j res_list
  updates_from n generate_pb s j q [] e = refl
  updates_from n generate_pb s zero q ((val, ids) ∷ res_list) e = omega (
    arith,
    weigh-updates n generate_pb (value_weight q) s val ids res_list,
    ap (λ b. if b then option_weight val else 0) ((==_iff s q).1 (omega (arith, e))),
    books-weightless n generate_pb q ids s,
    none_before n generate_pb q (suc s) res_list (omega (arith, e)),
  )
  updates_from n generate_pb s (suc j) q ((val, ids) ∷ res_list) e = omega (
    arith,
    weigh-updates n generate_pb (value_weight q) s val ids res_list,
    ap (λ b. if b then option_weight val else 0) (==_ne s q (λ eq. omega (arith, eq, e))),
    books-weightless n generate_pb q ids s,
    updates_from n generate_pb (suc s) j q res_list (omega (arith, e)),
  )

  pub updates-sent :
      (n : ℕ) (generate_pb : Bool) (p : ℕ) (res_list : Results V)
      → weigh_results n generate_pb (value_weight p) res_list ≡ sent p res_list
  updates-sent n generate_pb p res_list = updates_from n generate_pb 0 p p res_list (omega arith)

  module _ (torch : Torch) where
    received :
        (u : Update V) (m m' : Manager V)
        → perform torch u m ≡ some m'
        → weigh f m'.cur_part_val_list ≡ weigh f m.cur_part_val_list + value_weight (receiver u) u
    unfolding perform update_part_val update_pb
    received (val_update k none t) m m' e =
        let (_, _, run) = >>=-eq-some _ (λ _. some _) e in
        rw (← some_inj run, ==_refl k) (omega arith)
    received (val_update k (some v) t) m m' e =
        let (_, _, run) = >>=-eq-some _ (λ _. some _) e in
        rw (← some_inj run, ==_refl k) (omega (arith, weigh-append f m.cur_part_val_list (v ∷ [])))
    received (pb_update k ids t) m m' e =
        let (book, _, rest) = >>=-eq-some m.partition_book _ e in
        let (book', _, run) = >>=-eq-some (torch.index_fill book ids t) _ rest in
        rw (← some_inj run) (omega arith)

    elsewhere : (p : ℕ) (u : Update V) → p ≢ receiver u → value_weight p u ≡ 0
    elsewhere p (val_update k val t) ne = rw (==_ne k p (λ e. ne (sym e))) refl
    elsewhere p (pb_update k ids t) ne = refl

    -- What a part has and what is still sent to it.
    abbrev pub held_or_left : ℕ → Bool → ℕ → Group V → ℕ
    held_or_left n generate_pb p g =
        weigh f (g.managers p).cur_part_val_list + left n generate_pb (value_weight p) g

    Step-held :
        (n : ℕ) (generate_pb : Bool) (p : ℕ) {g next : Group V}
        → ArePlaced n generate_pb g.managers
        → Step torch n g next
        → held_or_left n generate_pb p next ≡ held_or_left n generate_pb p g
    Step-held n generate_pb p ok (performed g w before u after m lt e run) =
        let ms = put_at (receiver u) m g.managers in
        let gone = left_performed n generate_pb (value_weight p) g w before u after ms lt e in
        elim (==_cases p (receiver u)) [
          | inl eq ↦
              let now =
                ap (λ x. weigh f x.cur_part_val_list) (put_at_self (receiver u) m g.managers) in
              rw eq (omega (arith, rw eq at gone, now, received u (g.managers (receiver u)) m run))
          | inr ne ↦
              let same =
                ap (λ x. weigh f x.cur_part_val_list)
                  (put_at_other (receiver u) p m g.managers ne) in
              omega (arith, gone, same, elsewhere p u ne)
        ]
    Step-held n generate_pb p ok (next_chunk g w res_list rest us lt e e' run) =
        let same = process-updates n generate_pb w (g.managers w) res_list us (ok w lt) run in
        rw same (omega (arith, left_chunk n generate_pb (value_weight p) g w res_list rest lt e e'))

    Reachable-held :
        (n : ℕ) (generate_pb : Bool) (p : ℕ) {start g : Group V} {k : ℕ}
        → ArePlaced n generate_pb start.managers
        → Reachable torch n start k g
        → held_or_left n generate_pb p g ≡ held_or_left n generate_pb p start
    Reachable-held n generate_pb p ok at_first = refl
    Reachable-held n generate_pb p ok (later r step) =
        Step-held n generate_pb p (Reachable-ArePlaced torch n generate_pb ok r) step
        ∙ Reachable-held n generate_pb p ok r

    Reachable-held_end :
        (n : ℕ) (generate_pb : Bool) (p : ℕ) {start g : Group V} {k : ℕ}
        → ArePlaced n generate_pb start.managers
        → Reachable torch n start k g
        → Finished n g
        → weigh f (g.managers p).cur_part_val_list
          ≡ weigh f (start.managers p).cur_part_val_list + left n generate_pb (value_weight p) start
    Reachable-held_end n generate_pb p {start} {g} ok r done = omega (
      arith,
      Reachable-held n generate_pb p ok r,
      Finished-left n generate_pb (value_weight p) g done,
    )

-- For managers each in its place among `n` workers, in any order of the calls: when every worker has
-- reached the last barrier, the values of a part weigh as much as what all the chunks of all the
-- workers had for it, under every weight of values.
pub new_group-values_kept :
    {V : Type 0} (torch : Torch) (n total_val_size : ℕ) (generate_pb : Bool)
    (managers : ℕ → Manager V) (chunks : ℕ → List (Results V)) (f : V → ℕ) (p k : ℕ) (g : Group V)
    → ArePlaced n generate_pb (new_group torch managers total_val_size generate_pb chunks).managers
    → Reachable torch n (new_group torch managers total_val_size generate_pb chunks) k g
    → Finished n g
    → weigh f (g.managers p).cur_part_val_list ≡ total n (λ w. weigh (sent f p) (chunks w))
unfolding new_group reset
new_group-values_kept torch n total_val_size generate_pb managers chunks f p k g ok r done =
    let start = new_group torch managers total_val_size generate_pb chunks in
    let sums =
      total_same n (load n generate_pb (value_weight f p) start) (λ w. weigh (sent f p) (chunks w))
        (λ w lt. omega (arith, weigh_same (updates-sent f n generate_pb p) (chunks w))) in
    omega (arith, Reachable-held_end f torch n generate_pb p ok r done, sums)
