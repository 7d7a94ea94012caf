-- ===== src/Distributed/Partitioner/Conserve.antt =====
-- What a step of a group leaves of the calls to perform, under any weight of calls.
use graphlearn_for_pytorch.Prelude.{
  ℕ, zero, suc, ◌+◌, ◌<◌, ◌≤◌, ◌≡◌, refl, ap, sym, List, [], ◌∷◌, ◌++◌, arith, map, range_from,
  get_elem?, some, some_inj, Option, if◌then◌else◌, inl, inr, true, false, Bool, ap₂,
}
use graphlearn_for_pytorch.Distributed.Partitioner.{
  Manager, Update, Results, updates, Group, put_at, val_update, broadcast_pb, pb_update,
}
use graphlearn_for_pytorch.Distributed.Partitioner.Sums.{
  weigh, weigh-append, weigh_between, total, ==_cases, ≢_above, total-le, total_change, put_at_self,
  put_at_other,
}

module _ {V : Type 0} (W : Update V → ℕ) where
  broadcast_zero :
      (ids : List ℕ) (t s k : ℕ)
      → ((worker : ℕ) → worker < s + k → W (pb_update worker ids t) ≡ 0)
      → weigh W (map (λ pidx. pb_update pidx ids t) (range_from s k)) ≡ 0
  broadcast_zero ids t s zero h = refl
  broadcast_zero ids t s (suc k) h = omega (
    arith,
    h s (omega arith),
    broadcast_zero ids t (suc s) k (λ worker lt. h worker (omega (arith, lt))),
  )

  broadcast_at :
      (ids : List ℕ) (t s k r : ℕ)
      → s ≤ r
      → r < s + k
      → W (pb_update r ids t) ≤ weigh W (map (λ pidx. pb_update pidx ids t) (range_from s k))
  broadcast_at ids t s zero r le lt = absurd (omega arith)
  broadcast_at ids t s (suc k) r le lt = elim (==_cases r s) [
    | inl e ↦ rw e (omega arith)
    | inr ne ↦
        let above : suc s ≤ r = ≢_above s r ne le in
        omega (arith, broadcast_at ids t (suc s) k r above (omega (arith, lt)))
  ]

  books_zero :
      (n : ℕ) (generate_pb : Bool) (ids : List ℕ) (t : ℕ)
      → ((worker : ℕ) → worker < n → generate_pb ≡ true → W (pb_update worker ids t) ≡ 0)
      → weigh W (if generate_pb then broadcast_pb n ids t else []) ≡ 0
  books_zero n true ids t h =
      broadcast_zero ids t 0 n (λ worker lt. h worker (omega (arith, lt)) refl)
  books_zero n false ids t h = refl

  books_at :
      (n : ℕ) (generate_pb : Bool) (ids : List ℕ) (t r : ℕ)
      → generate_pb ≡ true
      → r < n
      → W (pb_update r ids t) ≤ weigh W (if generate_pb then broadcast_pb n ids t else [])
  books_at n true ids t r e lt = broadcast_at ids t 0 n r (omega arith) (omega (arith, lt))
  books_at n false ids t r e lt = cc

module _ {V : Type 0} (n : ℕ) (generate_pb : Bool) (W : Update V → ℕ) where
  -- The weight of all the calls of a chunk.
  abbrev pub weigh_results : Results V → ℕ
  weigh_results res_list = weigh W (updates n generate_pb 0 res_list)

  -- The calls of one part, and those of the parts after it.
  pub weigh-updates :
      (s : ℕ) (val : Option V) (ids : List ℕ) (res_list : Results V)
      → weigh W (updates n generate_pb s ((val, ids) ∷ res_list))
        ≡ W (val_update s val s)
          + (weigh W (if generate_pb then broadcast_pb n ids s else [])
              + weigh W (updates n generate_pb (suc s) res_list))
  weigh-updates s val ids res_list =
      ap (λ k. W (val_update s val s) + k)
        (weigh-append W (if generate_pb then broadcast_pb n ids s else [])
          (updates n generate_pb (suc s) res_list))

  -- The weight of what the worker `w` has still to perform.
  abbrev pub load : Group V → ℕ → ℕ
  load g w = weigh W (g.pending w) + weigh weigh_results (g.chunks w)

  abbrev pub left : Group V → ℕ
  left g = total n (load g)

  -- Calls that all weigh nothing.
  pub updates_zero :
      (s : ℕ) (res_list : Results V)
      → ((p t : ℕ) (val : Option V) (ids : List ℕ)
          → get_elem? res_list p ≡ some (val, ids)
          → t ≡ s + p
          → (W (val_update t val t) ≡ 0)
            × ((worker : ℕ) → worker < n → generate_pb ≡ true → W (pb_update worker ids t) ≡ 0))
      → weigh W (updates n generate_pb s res_list) ≡ 0
  updates_zero s [] h = refl
  updates_zero s ((val, ids) ∷ res_list) h =
      let (here, books) = h 0 s val ids refl (omega arith) in
      omega (
        arith,
        weigh-updates s val ids res_list,
        here,
        books_zero W n generate_pb ids s books,
        updates_zero (suc s) res_list
            (λ p t val ids at e. h (suc p) t val ids at (omega (arith, e))),
      )

  pub updates_at :
      (s q p r : ℕ) (val : Option V) (ids : List ℕ) (res_list : Results V)
      → get_elem? res_list p ≡ some (val, ids)
      → generate_pb ≡ true
      → r < n
      → q ≡ s + p
      → W (pb_update r ids q) ≤ weigh W (updates n generate_pb s res_list)
  updates_at s q p r val ids [] at gen lt e = cc
  updates_at s q zero r val ids ((val', ids') ∷ res_list) at gen lt e =
      let same : ids' ≡ ids = ap (λ x. x.1) (some_inj at) in
      let here : q ≡ s = omega (arith, e) in
      rw (here, ← same)
        (omega
          (arith, weigh-updates s val' ids' res_list, books_at W n generate_pb ids' s r gen lt))
  updates_at s q (suc p) r val ids ((val', ids') ∷ res_list) at gen lt e = omega (
    arith,
    weigh-updates s val' ids' res_list,
    updates_at (suc s) q p r val ids res_list at gen lt (omega (arith, e)),
  )

  pub left_performed :
      (g : Group V) (w : ℕ) (before : List (Update V)) (u : Update V) (after : List (Update V))
      (ms : ℕ → Manager V)
      → w < n
      → g.pending w ≡ before ++ u ∷ after
      → left (record g { managers = ms; pending = put_at w (before ++ after) g.pending }) + W u
        ≡ left g
  left_performed g w before u after ms lt e =
      let next : Group V = record g {
        managers = ms;
        pending = put_at w (before ++ after) g.pending;
      } in
      let now : load next w ≡ weigh W (before ++ after) + weigh weigh_results (g.chunks w) =
        ap (λ us. weigh W us + weigh weigh_results (g.chunks w))
          (put_at_self w (before ++ after) g.pending) in
      let change = total_change n w (load g) (load next) lt (λ i ne.
        ap (λ us. weigh W us + weigh weigh_results (g.chunks i))
          (sym (put_at_other w i (before ++ after) g.pending ne))) in
      omega (arith, change, now, ap (weigh W) e, weigh_between W before u after)

  pub left_chunk :
      (g : Group V) (w : ℕ) (res_list : Results V) (rest : List (Results V))
      → w < n
      → g.pending w ≡ []
      → g.chunks w ≡ res_list ∷ rest
      → left (record g {
        pending = put_at w (updates n generate_pb 0 res_list) g.pending;
        chunks = put_at w rest g.chunks;
      })
        ≡ left g
  left_chunk g w res_list rest lt e e' =
      let us = updates n generate_pb 0 res_list in
      let next : Group V = record g {
        pending = put_at w us g.pending;
        chunks = put_at w rest g.chunks;
      } in
      let now : load next w ≡ weigh W us + weigh weigh_results rest =
        ap₂ (λ us cs. weigh W us + weigh weigh_results cs) (put_at_self w us g.pending)
          (put_at_self w rest g.chunks) in
      let change = total_change n w (load g) (load next) lt (λ i ne.
        ap₂ (λ us cs. weigh W us + weigh weigh_results cs) (sym (put_at_other w i us g.pending ne))
          (sym (put_at_other w i rest g.chunks ne))) in
      omega (arith, change, now, ap (weigh W) e, ap (weigh weigh_results) e')

  pub load-le-left : (g : Group V) (w : ℕ) → w < n → load g w ≤ left g
  load-le-left g w lt = total-le n w (load g) lt
