-- ===== src/Distributed/Partitioner/Runs.antt =====
-- Runs of a group: the managers' places, and the calls that are left.
use graphlearn_for_pytorch.Prelude.{
  ℕ, zero, suc, ◌+◌, ◌<◌, ◌≤◌, ◌≡◌, refl, ap₂, sym, ◌∙◌, Bool, none, some, List, arith, inl, inr,
  >>=-eq-some, some_inj,
}
use graphlearn_for_pytorch.Torch.{Torch}
use graphlearn_for_pytorch.Distributed.Partitioner.{
  Manager, Update, val_update, pb_update, Results, updates, process, update_part_val, update_pb,
  perform, receiver, put_at, Group, Step, performed, next_chunk, Reachable, at_first, later,
  Finished,
}
use graphlearn_for_pytorch.Distributed.Partitioner.Sums.{
  weigh, total, ==_cases, put_at_self, put_at_other,
}
use graphlearn_for_pytorch.Distributed.Partitioner.Conserve.{
  weigh_results, load, left, left_performed, left_chunk,
}

module _ {V : Type 0} where
  -- The manager `m` is that of the worker `w`.
  pub record IsPlaced (n : ℕ) (generate_pb : Bool) (w : ℕ) (m : Manager V) : Type 0 where
    pub parts : m.num_parts ≡ n
    pub rank : m.cur_pidx ≡ w
    pub books : m.generate_pb ≡ generate_pb

  abbrev pub ArePlaced : ℕ → Bool → (ℕ → Manager V) → Type 0
  ArePlaced n generate_pb managers = (w : ℕ) → w < n → IsPlaced n generate_pb w (managers w)

  pub process-updates :
      (n : ℕ) (generate_pb : Bool) (w : ℕ) (m : Manager V) (res_list : Results V)
      (us : List (Update V))
      → IsPlaced n generate_pb w m
      → process m res_list ≡ some us
      → us ≡ updates n generate_pb 0 res_list
  unfolding process
  process-updates n generate_pb w m res_list us ok e =
      let (_, _, run) = >>=-eq-some _ (λ _. some _) e in
      sym (some_inj run) ∙ ap₂ (λ k b. updates k b 0 res_list) ok.parts ok.books

  module _ (torch : Torch) where
    perform-IsPlaced :
        (n : ℕ) (generate_pb : Bool) (w : ℕ) (u : Update V) (m m' : Manager V)
        → IsPlaced n generate_pb w m
        → perform torch u m ≡ some m'
        → IsPlaced n generate_pb w m'
    unfolding perform update_part_val update_pb
    perform-IsPlaced n generate_pb w (val_update k none t) m m' ok e =
        let (_, _, run) = >>=-eq-some _ (λ _. some _) e in rw (← some_inj run) ok
    perform-IsPlaced n generate_pb w (val_update k (some v) t) m m' ok e =
        let (_, _, run) = >>=-eq-some _ (λ _. some _) e in
        rw (← some_inj run) (record { parts = ok.parts; rank = ok.rank; books = ok.books })
    perform-IsPlaced n generate_pb w (pb_update k ids t) m m' ok e =
        let (book, _, rest) = >>=-eq-some m.partition_book _ e in
        let (book', _, run) = >>=-eq-some (torch.index_fill book ids t) _ rest in
        rw (← some_inj run) (record { parts = ok.parts; rank = ok.rank; books = ok.books })

    Step-ArePlaced :
        (n : ℕ) (generate_pb : Bool) {g next : Group V}
        → ArePlaced n generate_pb g.managers
        → Step torch n g next
        → ArePlaced n generate_pb next.managers
    Step-ArePlaced n generate_pb ok (performed g w before u after m lt e run) = λ i lt'.
        elim (==_cases i (receiver u)) [
          | inl eq ↦
              let old : IsPlaced n generate_pb i (g.managers (receiver u)) = rw (← eq) (ok i lt') in
              let now = perform-IsPlaced n generate_pb i u (g.managers (receiver u)) m old run in
              rw (eq, put_at_self (receiver u) m g.managers) (rw (← eq) now)
          | inr ne ↦ rw (put_at_other (receiver u) i m g.managers ne) (ok i lt')
        ]
    Step-ArePlaced n generate_pb ok (next_chunk g w res_list rest us lt e e' run) = ok

    pub Reachable-ArePlaced :
        (n : ℕ) (generate_pb : Bool) {start g : Group V} {k : ℕ}
        → ArePlaced n generate_pb start.managers
        → Reachable torch n start k g
        → ArePlaced n generate_pb g.managers
    Reachable-ArePlaced n generate_pb ok at_first = ok
    Reachable-ArePlaced n generate_pb ok (later r step) =
        Step-ArePlaced n generate_pb (Reachable-ArePlaced n generate_pb ok r) step

    -- What is left to perform only decreases.
    pub Step-left :
        (n : ℕ) (generate_pb : Bool) (W : Update V → ℕ) {g next : Group V}
        → ArePlaced n generate_pb g.managers
        → Step torch n g next
        → left n generate_pb W next ≤ left n generate_pb W g
    Step-left n generate_pb W ok (performed g w before u after m lt e run) = omega (
      arith,
      left_performed n generate_pb W g w before u after (put_at (receiver u) m g.managers) lt e,
    )
    Step-left n generate_pb W ok (next_chunk g w res_list rest us lt e e' run) =
        let same = process-updates n generate_pb w (g.managers w) res_list us (ok w lt) run in
        rw same (omega (arith, left_chunk n generate_pb W g w res_list rest lt e e'))

    pub Reachable-left :
        (n : ℕ) (generate_pb : Bool) (W : Update V → ℕ) {start g : Group V} {k : ℕ}
        → ArePlaced n generate_pb start.managers
        → Reachable torch n start k g
        → left n generate_pb W g ≤ left n generate_pb W start
    Reachable-left n generate_pb W ok at_first = omega arith
    Reachable-left n generate_pb W ok (later {g} {next} r step) = omega (
      arith,
      Reachable-left n generate_pb W ok r,
      Step-left n generate_pb W (Reachable-ArePlaced n generate_pb ok r) step,
    )

pub Finished-left :
    {V : Type 0} (n : ℕ) (generate_pb : Bool) (W : Update V → ℕ) (g : Group V)
    → Finished n g
    → left n generate_pb W g ≡ 0
Finished-left n generate_pb W g done = all_zero n (λ w lt.
    ap₂ (λ us cs. weigh W us + weigh (weigh_results n generate_pb W) cs) (done w lt).0
      (done w lt).1)
  where
    all_zero :
        (m : ℕ)
        → ((w : ℕ) → w < m → load n generate_pb W g w ≡ 0)
        → total m (load n generate_pb W g) ≡ 0
    all_zero zero h = refl
    all_zero (suc m) h = omega (arith, h m (omega arith), all_zero m (λ w lt. h w (omega arith)))
