-- ===== src/Distributed/Partitioner/Progress.antt =====
-- The state of a group along its run, and its next step.
use graphlearn_for_pytorch.Prelude.{
  ℕ, zero, suc, ◌<◌, ◌≤◌, ◌≡◌, refl, ap, sym, ◌∙◌, ◌⊎◌, Bool, true, ◌&&◌, none, some, List, [], ◌∷◌,
  ◌++◌, arith, inl, inr, ◌==◌, ltb, ltb→lt, lt→ltb, if◌then◌else◌, length, get_elem?, some_inj,
  ==_iff,
}
use mathlib.Core.Path.{subst}
use graphlearn_for_pytorch.Torch.{Torch, AllBelow, filled-total, length-filled}
use graphlearn_for_pytorch.Typing.{PartitionBook}
use graphlearn_for_pytorch.Distributed.Partitioner.{
  Manager, Update, val_update, pb_update, Results, updates, process, update_part_val, update_pb,
  perform, receiver, put_at, Group, Step, performed, next_chunk, at_first, later,
}
use graphlearn_for_pytorch.Distributed.Partitioner.Sums.{==_cases, ≢_lt, put_at_self, put_at_other}
use graphlearn_for_pytorch.Distributed.Partitioner.Conserve.{left, left_performed, left_chunk}
use graphlearn_for_pytorch.Distributed.Partitioner.Runs.{
  IsPlaced, ArePlaced, process-updates, Reachable-ArePlaced,
}

abbrev pub all_below : ℕ → List ℕ → Bool
all_below size [] = true
all_below size (i ∷ is) = ltb i size && all_below size is

all_below-AllBelow : (size : ℕ) (is : List ℕ) → all_below size is ≡ true → AllBelow size is
all_below-AllBelow size [] h = tt
all_below-AllBelow size (i ∷ is) h =
    let (a, b) : (ltb i size ≡ true) × (all_below size is ≡ true) = ground arith in
    (ltb→lt i size a, all_below-AllBelow size is b)

pub AllBelow-all_below : (size : ℕ) (is : List ℕ) → AllBelow size is → all_below size is ≡ true
AllBelow-all_below size [] h = refl
AllBelow-all_below size (i ∷ is) h = rw (lt→ltb i size h.0, AllBelow-all_below size is h.1) refl

zero_test : (b : Bool) → ◌≡◌ {A = ℕ} (if b then 0 else 1) 0 → b ≡ true
zero_test b h = ground arith

both : (a b : Bool) → (a && b) ≡ true → (a ≡ true) × (b ≡ true)
both a b h = ground arith

List-cases : {A : Type 0} (xs : List A) → (xs ≡ []) ⊎ ((x : A) × (rest : List A) × (xs ≡ x ∷ rest))
List-cases [] = inl refl
List-cases (x ∷ xs) = inr (x, xs, refl)

module _ {V : Type 0} (n size : ℕ) (generate_pb : Bool) where
  -- Would the call raise?
  abbrev pub raises : Update V → ℕ
  raises (val_update worker val target_pidx) =
      if ltb worker n && (target_pidx == worker) then 0 else 1
  raises (pb_update worker val_idx target_pidx) =
      if ltb worker n && (generate_pb && all_below size val_idx) then 0 else 1

  -- The manager has a book if it is to generate one.
  abbrev pub IsReady : Manager V → Type 0
  IsReady m =
      generate_pb ≡ true
      → (book : PartitionBook) × (m.partition_book ≡ some book) × (length book ≡ size)

  raises-receiver : (u : Update V) → raises u ≡ 0 → receiver u < n
  raises-receiver (val_update k val t) h = ltb→lt k n (both (ltb k n) (t == k) (zero_test _ h)).0
  raises-receiver (pb_update k ids t) h =
      ltb→lt k n (both (ltb k n) (generate_pb && all_below size ids) (zero_test _ h)).0

  module _ (torch : Torch) where
    perform-runs :
        (u : Update V) (m : Manager V)
        → raises u ≡ 0
        → IsPlaced n generate_pb (receiver u) m
        → IsReady m
        → (m' : Manager V) × (perform torch u m ≡ some m') × IsReady m'
    unfolding perform update_part_val update_pb
    perform-runs (val_update k none t) m h placed ready =
        let e = (both (ltb k n) (t == k) (zero_test _ h)).1 in (m, rw (placed.rank, e) refl, ready)
    perform-runs (val_update k (some v) t) m h placed ready =
        let e = (both (ltb k n) (t == k) (zero_test _ h)).1 in
        (
          record m { cur_part_val_list = m.cur_part_val_list ++ v ∷ [] },
          rw (placed.rank, e) refl,
          ready,
        )
    perform-runs (pb_update k ids t) m h placed ready =
        let (gen, below) =
          both generate_pb (all_below size ids)
            (both (ltb k n) (generate_pb && all_below size ids) (zero_test _ h)).1 in
        let (book, there, len) = ready gen in
        let (book', put) = filled-total book ids t (rw len (all_below-AllBelow size ids below)) in
        (
          record m { partition_book = some book' },
          rw (there, torch.index_fill_law book ids t, put) refl,
          λ _. (book', refl, length-filled book ids t book' put ∙ len),
        )

    -- What holds of a group all along its run.
    pub record InOrder (g : Group V) : Type 0 where
      pub placed : ArePlaced n generate_pb g.managers
      pub ready : (w : ℕ) → w < n → IsReady (g.managers w)
      pub right : left n generate_pb raises g ≡ 0
      pub sized :
          (w c : ℕ) (res_list : Results V)
          → w < n
          → get_elem? (g.chunks w) c ≡ some res_list
          → length res_list ≡ n

    head_right :
        (g : Group V) (w : ℕ) (before : List (Update V)) (u : Update V) (after : List (Update V))
        → InOrder g
        → w < n
        → g.pending w ≡ before ++ u ∷ after
        → raises u ≡ 0
    head_right g w before u after ok lt e =
        omega
          (arith, left_performed n generate_pb raises g w before u after g.managers lt e, ok.right)

    pub Step-InOrder : {g next : Group V} → InOrder g → Step torch n g next → InOrder next
    Step-InOrder ok (performed g w before u after m lt e run) =
        let mine = head_right g w before u after ok lt e in
        let at = raises-receiver u mine in
        let (m', run', ready') =
          perform-runs u (g.managers (receiver u)) mine (ok.placed (receiver u) at)
            (ok.ready (receiver u) at) in
        let same : m' ≡ m = some_inj (sym run' ∙ run) in
        record {
          placed =
              Reachable-ArePlaced torch n generate_pb ok.placed
                (later at_first (performed g w before u after m lt e run));
          ready = λ i lt'. elim (==_cases i (receiver u)) [
            | inl eq ↦ rw (eq, put_at_self (receiver u) m g.managers) (subst IsReady same ready')
            | inr ne ↦ rw (put_at_other (receiver u) i m g.managers ne) (ok.ready i lt')
          ];
          right = omega (
            arith,
            left_performed n generate_pb raises g w before u after
                (put_at (receiver u) m g.managers) lt e,
            ok.right,
          );
          sized = ok.sized;
        }
    Step-InOrder ok (next_chunk g w res_list rest us lt e e' run) =
        let same =
          process-updates n generate_pb w (g.managers w) res_list us (ok.placed w lt) run in
        record {
          placed = ok.placed;
          ready = ok.ready;
          right = rw same (left_chunk n generate_pb raises g w res_list rest lt e e' ∙ ok.right);
          sized = λ i c res lt' at. elim (==_cases i w) [
            | inl eq ↦ ok.sized w (suc c) res lt (
                ap (λ l. get_elem? l (suc c)) e'
                ∙ ap (λ l. get_elem? l c) (sym (put_at_self w rest g.chunks))
                ∙ ap (λ j. get_elem? (put_at w rest g.chunks j) c) (sym eq)
                ∙ at)
            | inr ne ↦
                ok.sized i c res lt'
                  (ap (λ l. get_elem? l c) (sym (put_at_other w i rest g.chunks ne)) ∙ at)
          ];
        }

    -- A worker that has something left to do.
    pub record IsBusy (g : Group V) (w : ℕ) : Type 0 where
      below : w < n
      work :
          ((u : Update V) × (us : List (Update V)) × (g.pending w ≡ u ∷ us))
          ⊎ ((g.pending w ≡ [])
              × (res_list : Results V) × (rest : List (Results V)) × (g.chunks w ≡ res_list ∷ rest))

    worker_cases :
        (g : Group V) (w : ℕ) → w < n → ((g.pending w ≡ []) × (g.chunks w ≡ [])) ⊎ IsBusy g w
    worker_cases g w lt = elim (List-cases (g.pending w)) [
      | inr (u, us, e) ↦ inr (record { below = lt; work = inl (u, us, e) })
      | inl e ↦ elim (List-cases (g.chunks w)) [
        | inl e' ↦ inl (e, e')
        | inr (res, rest, e') ↦ inr (record { below = lt; work = inr (e, res, rest, e') })
      ]
    ]

    pub find-IsBusy :
        (g : Group V) (k : ℕ)
        → k ≤ n
        → ((w : ℕ) → w < k → (g.pending w ≡ []) × (g.chunks w ≡ [])) ⊎ ((w : ℕ) × IsBusy g w)
    find-IsBusy g zero le = inl (λ w lt. absurd (omega arith))
    find-IsBusy g (suc k) le = elim (find-IsBusy g k (omega arith)) [
      | inr found ↦ inr found
      | inl idle ↦ elim (worker_cases g k le) [
        | inr busy ↦ inr (k, busy)
        | inl now ↦
            inl
              (λ w lt. elim (==_cases w k) [ inl e ↦ rw e now | inr ne ↦ idle w (≢_lt w k ne lt) ])
      ]
    ]

    pub busy-steps :
        (g : Group V) (w : ℕ) → InOrder g → IsBusy g w → (next : Group V) × Step torch n g next
    unfolding process
    busy-steps g w ok busy = elim busy.work [
      | inl (u, us, e) ↦
          let mine = head_right g w [] u us ok busy.below e in
          let at = raises-receiver u mine in
          let (m, run, _) =
            perform-runs u (g.managers (receiver u)) mine (ok.placed (receiver u) at)
              (ok.ready (receiver u) at) in
          (_, performed g w [] u us m busy.below e run)
      | inr (e, res, rest, e') ↦
          let len = ok.sized w 0 res busy.below (ap (λ l. get_elem? l 0) e') in
          let fits =
            (==_iff (length res) (g.managers w).num_parts).1
              (len ∙ sym (ok.placed w busy.below).parts) in
          (
            _,
            next_chunk g w res rest
                (updates (g.managers w).num_parts (g.managers w).generate_pb 0 res) busy.below e e'
                (rw fits refl),
          )
    ]
