-- ===== src/Distributed/Partitioner/Books.antt =====
-- The entries of the partition books of a group, call by call.
use graphlearn_for_pytorch.Prelude.{
  ℕ, ◌+◌, ◌<◌, ◌≤◌, ◌≡◌, ◌≢◌, refl, ap, sym, ◌∙◌, ◌⊎◌, true, Option, none, some, arith, inl, inr,
  ◌==◌, if◌then◌else◌, length, get_elem?, >>=-eq-some, some_inj, ==_iff, ==_ne, Bool-cases,
}
use mathlib.Core.Path.{subst}
use graphlearn_for_pytorch.Torch.{Torch, contains, get_elem?-filled, length-filled}
use graphlearn_for_pytorch.Typing.{PartitionBook}
use graphlearn_for_pytorch.Distributed.Partitioner.{
  Manager, Update, val_update, pb_update, update_part_val, update_pb, perform, receiver, put_at,
  Group, Step, performed, next_chunk, Reachable, at_first, later,
}
use graphlearn_for_pytorch.Distributed.Partitioner.Sums.{==_cases, put_at_self, put_at_other}
use graphlearn_for_pytorch.Distributed.Partitioner.Conserve.{left, left_performed, left_chunk}
use graphlearn_for_pytorch.Distributed.Partitioner.Runs.{
  ArePlaced, process-updates, Reachable-ArePlaced, Reachable-left,
}

module _ {V : Type 0} where
  -- Does the call write the entry of `i` in the book of the worker `r`?
  abbrev pub covers : ℕ → ℕ → Update V → ℕ
  covers r i (val_update worker val target_pidx) = 0
  covers r i (pb_update worker val_idx target_pidx) =
      if worker == r then (if contains val_idx i then 1 else 0) else 0

  -- Does the call send `i` elsewhere than to the part `t`?
  abbrev pub sends_off : ℕ → ℕ → Update V → ℕ
  sends_off i t (val_update worker val target_pidx) = 0
  sends_off i t (pb_update worker val_idx target_pidx) =
      if contains val_idx i then (if target_pidx == t then 0 else 1) else 0

entry_after :
    {t : ℕ} (b b' : Option ℕ) (c l l' l0 : ℕ)
    → l' + c ≡ l
    → l ≤ l0
    → ((b ≡ some 0) × (l ≡ l0)) ⊎ ((b ≡ some t) × (0 < l0))
    → ((c ≡ 0) × (b' ≡ b)) ⊎ ((c ≡ 1) × (b' ≡ some t))
    → ((b' ≡ some 0) × (l' ≡ l0)) ⊎ ((b' ≡ some t) × (0 < l0))
entry_after b b' c l l' l0 e le old (inr (c_eq, now)) = inr (now, omega (arith, e, c_eq))
entry_after b b' c l l' l0 e le (inl (zero_there, same)) (inl (c_eq, kept)) =
    inl (kept ∙ zero_there, omega (arith, e, c_eq, same))
entry_after b b' c l l' l0 e le (inr (done, pos)) (inl (c_eq, kept)) = inr (kept ∙ done, pos)

module _ (torch : Torch) {V : Type 0} where
  -- What a call does to the entry of `i` in the book of the manager it reaches.
  written :
      (r i t : ℕ) (u : Update V) (m m' : Manager V) (book : PartitionBook)
      → r ≡ receiver u
      → perform torch u m ≡ some m'
      → m.partition_book ≡ some book
      → sends_off i t u ≡ 0
      → (book' : PartitionBook) × (m'.partition_book ≡ some book')
        × (length book' ≡ length book)
        × (((covers r i u ≡ 0) × (get_elem? book' i ≡ get_elem? book i))
            ⊎ ((covers r i u ≡ 1) × (get_elem? book' i ≡ some t)))
  unfolding perform update_part_val update_pb
  written r i t (val_update k none q) m m' book reached e at right =
      let (_, _, run) = >>=-eq-some _ (λ _. some _) e in
      rw (← some_inj run) (book, at, refl, inl (refl, refl))
  written r i t (val_update k (some v) q) m m' book reached e at right =
      let (_, _, run) = >>=-eq-some _ (λ _. some _) e in
      rw (← some_inj run) (book, at, refl, inl (refl, refl))
  written r i t (pb_update k ids q) m m' book reached e at right =
      let (old, got, rest) = >>=-eq-some m.partition_book _ e in
      let (new, put, run) = >>=-eq-some (torch.index_fill old ids q) _ rest in
      let same : old ≡ book = some_inj (sym got ∙ at) in
      let put' =
        sym (torch.index_fill_law book ids q)
        ∙ subst (λ b. torch.index_fill b ids q ≡ some new) same put in
      let now = get_elem?-filled book ids q new i put' in
      rw (← some_inj run, (==_iff k r).1 (sym reached))
        (
          new,
          refl,
          length-filled book ids q new put',
          elim (Bool-cases (contains ids i)) [
            | inl inside ↦
                inr (rw inside refl, now ∙ rw inside (ap some (off q t (rw inside at right))))
            | inr outside ↦ inl (rw outside refl, now ∙ rw outside refl)
          ],
        )
    where
      off : (q t : ℕ) → ◌≡◌ {A = ℕ} (if q == t then 0 else 1) 0 → q ≡ t
      off q t h = ground arith

  covers_elsewhere : (r i : ℕ) (u : Update V) → r ≢ receiver u → covers r i u ≡ 0
  covers_elsewhere r i (val_update k val q) ne = refl
  covers_elsewhere r i (pb_update k ids q) ne = rw (==_ne k r (λ e. ne (sym e))) refl

  module _ (n size i t r : ℕ) (start : Group V) where
    -- The entry of `i` in the book of the worker `r`: still the first one, and nothing that would
    -- change it has been performed, or the part `t`.
    pub record Noted (g : Group V) : Type 0 where
      pub book : PartitionBook
      pub there : (g.managers r).partition_book ≡ some book
      pub sized : length book ≡ size
      pub entry :
          ((get_elem? book i ≡ some 0)
            × (left n true (covers r i) g ≡ left n true (covers r i) start))
          ⊎ ((get_elem? book i ≡ some t) × (0 < left n true (covers r i) start))

    Step-Noted :
        {g next : Group V} {k : ℕ}
        → ArePlaced n true start.managers
        → Reachable torch n start k g
        → left n true (sends_off i t) start ≡ 0
        → Noted g
        → Step torch n g next
        → Noted next
    Step-Noted ok reach right noted (performed g w before u after m lt e run) =
        let ms = put_at (receiver u) m g.managers in
        let gone = left_performed n true (covers r i) g w before u after ms lt e in
        let off = left_performed n true (sends_off i t) g w before u after ms lt e in
        let below = Reachable-left torch n true (covers r i) ok reach in
        let right' : sends_off i t u ≡ 0 =
          omega (arith, off, right, Reachable-left torch n true (sends_off i t) ok reach) in
        elim (==_cases r (receiver u)) [
          | inl eq ↦
              let (book', there', len, which) =
                written r i t u (g.managers (receiver u)) m noted.book eq run
                  (rw (← eq) noted.there) right' in
              record {
                book = book';
                there = rw (eq, put_at_self (receiver u) m g.managers) there';
                sized = len ∙ noted.sized;
                entry =
                    entry_after (get_elem? noted.book i) (get_elem? book' i) (covers r i u)
                      (left n true (covers r i) g) _ (left n true (covers r i) start) gone below
                      noted.entry which;
              }
          | inr ne ↦ record {
            book = noted.book;
            there = rw (put_at_other (receiver u) r m g.managers ne) noted.there;
            sized = noted.sized;
            entry = elim noted.entry [
              | inl (zero_there, same) ↦
                  inl (zero_there, omega (arith, gone, same, covers_elsewhere r i u ne))
              | inr done ↦ inr done
            ];
          }
        ]
    Step-Noted ok reach right noted (next_chunk g w res_list rest us lt e e' run) =
        let placed = Reachable-ArePlaced torch n true ok reach in
        let same = process-updates n true w (g.managers w) res_list us (placed w lt) run in
        let kept = left_chunk n true (covers r i) g w res_list rest lt e e' in
        record {
          book = noted.book;
          there = noted.there;
          sized = noted.sized;
          entry = elim noted.entry [
            | inl (zero_there, old) ↦ inl (zero_there, rw same (kept ∙ old))
            | inr done ↦ inr done
          ];
        }

    pub Reachable-Noted :
        {g : Group V} {k : ℕ}
        → ArePlaced n true start.managers
        → left n true (sends_off i t) start ≡ 0
        → Noted start
        → Reachable torch n start k g
        → Noted g
    Reachable-Noted ok right noted at_first = noted
    Reachable-Noted ok right noted (later r step) =
        Step-Noted ok r right (Reachable-Noted ok right noted r) step
