-- ===== src/Distributed/Partitioner/Agree.antt =====
-- The partition books of a group at the last barrier.
use graphlearn_for_pytorch.Prelude.{
  ℕ, ◌<◌, ◌≡◌, refl, ap, Bool, true, false, Option, some, List, arith, inl, inr, ◌==◌,
  if◌then◌else◌, length, get_elem?, replicate, ==_iff, ==_refl, length-replicate,
  get_elem?-replicate,
}
use graphlearn_for_pytorch.Torch.{Torch, contains, contains_at, contains-absent, find_index}
use graphlearn_for_pytorch.Typing.{PartitionBook}
use graphlearn_for_pytorch.Distributed.Partitioner.{
  Manager, Update, val_update, pb_update, Results, Group, Reachable, Finished, new_group, reset,
}
use graphlearn_for_pytorch.Distributed.Partitioner.Sums.{weigh_at, weigh_zero, total-le, total_zero}
use graphlearn_for_pytorch.Distributed.Partitioner.Conserve.{
  weigh_results, load, left, updates_zero, updates_at,
}
use graphlearn_for_pytorch.Distributed.Partitioner.Runs.{ArePlaced, Finished-left}
use graphlearn_for_pytorch.Distributed.Partitioner.Books.{covers, sends_off, Noted, Reachable-Noted}

-- Some chunk has the id `i` among the ids of the part `p`.
pub record IsSent {V : Type 0} (chunks : List (Results V)) (p i : ℕ) : Type 0 where
  pub c : ℕ
  pub k : ℕ
  pub res_list : Results V
  pub val : Option V
  pub ids : List ℕ
  pub in_chunks : get_elem? chunks c ≡ some res_list
  pub in_results : get_elem? res_list p ≡ some (val, ids)
  pub in_ids : get_elem? ids k ≡ some i

module _ (torch : Torch) {V : Type 0} (n size : ℕ) (managers : ℕ → Manager V)
    (chunks : ℕ → List (Results V)) where
  abbrev begun : Group V
  begun = new_group torch managers size true chunks

  -- An id that is sent has a call left that writes it into the book of the worker `r`.
  sent-left :
      (w p i r : ℕ) → w < n → r < n → IsSent (chunks w) p i → 0 < left n true (covers r i) begun
  unfolding new_group reset
  sent-left w p i r lt lt' sent =
      let one : covers {V = V} r i (pb_update r sent.ids p) ≡ 1 =
        rw (==_refl r, contains_at sent.ids i sent.k sent.in_ids) refl in
      omega (
        arith,
        one,
        updates_at n true (covers r i) 0 p p r sent.val sent.ids sent.res_list sent.in_results refl
            lt' (omega arith),
        weigh_at (weigh_results n true (covers r i)) (chunks w) sent.c sent.res_list sent.in_chunks,
        total-le n w (load n true (covers r i) begun) lt,
      )

  -- A weight that is nothing on calls without `i`, and on the calls that the chunks have for it.
  weightless :
      (W : Update V → ℕ) (i : ℕ)
      → ((t : ℕ) (val : Option V) → W (val_update t val t) ≡ 0)
      → ((worker t : ℕ) (ids : List ℕ) → contains ids i ≡ false → W (pb_update worker ids t) ≡ 0)
      → ((w p worker : ℕ) (ids : List ℕ)
          → w < n
          → IsSent (chunks w) p i
          → W (pb_update worker ids p) ≡ 0)
      → left n true W begun ≡ 0
  unfolding new_group reset
  weightless W i vals outside inside = total_zero n (load n true W begun) (λ w lt. omega (
    arith,
    weigh_zero (weigh_results n true W) (chunks w) (λ c res_list at.
        updates_zero n true W 0 res_list (λ p t val ids at' e. (
          vals t val,
          λ worker lt' gen. elim (find_index ids i) [
            | inl (k, at'') ↦
                let same : t ≡ p = omega (arith, e) in
                rw same (
                  inside w p worker ids lt (record {
                    c = c;
                    k = k;
                    res_list = res_list;
                    val = val;
                    ids = ids;
                    in_chunks = at;
                    in_results = at';
                    in_ids = at'';
                  }))
            | inr absent ↦ outside worker t ids (contains-absent ids i absent)
          ],
        ))),
  ))

  not_sent-left :
      (i r : ℕ) → ((w p : ℕ) → w < n → ¬ IsSent (chunks w) p i) → left n true (covers r i) begun ≡ 0
  not_sent-left i r never =
      weightless (covers r i) i (λ t val. refl) (λ worker t ids e. outside_zero (worker == r) e)
        (λ w p worker ids lt sent. absurd (never w p lt sent))
    where
      outside_zero :
          (b : Bool) {c : Bool} → c ≡ false → ◌≡◌ {A = ℕ} (if b then (if c then 1 else 0) else 0) 0
      outside_zero true e = rw e refl
      outside_zero false e = refl

  sent_off :
      (i t : ℕ)
      → ((w p : ℕ) → w < n → IsSent (chunks w) p i → p ≡ t)
      → left n true (sends_off i t) begun ≡ 0
  sent_off i t only =
      weightless (sends_off i t) i (λ t val. refl) (λ worker t ids e. rw e refl)
        (λ w p worker ids lt sent. none_off (contains ids i) ((==_iff p t).1 (only w p lt sent)))
    where
      none_off :
          (b : Bool) {c : Bool} → c ≡ true → ◌≡◌ {A = ℕ} (if b then (if c then 0 else 1) else 0) 0
      none_off true e = rw e refl
      none_off false e = refl

  at_begin : (r i t : ℕ) → i < size → Noted torch n size i t r begun begun
  unfolding new_group reset
  at_begin r i t lt = record {
    book = replicate size 0;
    there = ap some (torch.zeros_law size);
    sized = length-replicate size 0;
    entry = inl (get_elem?-replicate size i 0 lt, refl);
  }

  -- For managers each in its place among `n` workers, in any order of the calls: when every worker
  -- has reached the last barrier, the book of each worker `r` has, for each id `i` of its range
  -- that all who send it send to the part `t`: the entry `t` if some worker has sent it, and the
  -- entry 0 if none has.
  pub new_group-books_agree :
      (k : ℕ) (g : Group V) (r i t : ℕ)
      → ArePlaced n true begun.managers
      → Reachable torch n begun k g
      → Finished n g
      → r < n
      → i < size
      → ((w p : ℕ) → w < n → IsSent (chunks w) p i → p ≡ t)
      → (book : PartitionBook) × ((g.managers r).partition_book ≡ some book)
        × (length book ≡ size)
        × ((w p : ℕ) → w < n → IsSent (chunks w) p i → get_elem? book i ≡ some t)
        × (((w p : ℕ) → w < n → ¬ IsSent (chunks w) p i) → get_elem? book i ≡ some 0)
  new_group-books_agree k g r i t ok reach done lt lt' only =
      let noted =
        Reachable-Noted torch n size i t r begun ok (sent_off i t only) (at_begin r i t lt')
          reach in
      let none_left = Finished-left n true (covers r i) g done in
      (
        noted.book,
        noted.there,
        noted.sized,
        λ w p lt'' sent. elim noted.entry [
          | inl (_, same) ↦ absurd (omega (arith, sent-left w p i r lt'' lt sent, same, none_left))
          | inr (at, _) ↦ at
        ],
        λ never. elim noted.entry [
          | inl (at, _) ↦ at
          | inr (_, pos) ↦ absurd (omega (arith, not_sent-left i r never, pos))
        ],
      )
