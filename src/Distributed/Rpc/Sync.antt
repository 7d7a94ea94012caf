-- ===== src/Distributed/Rpc/Sync.antt =====
-- `rpc_sync_data_partitions` of graphlearn_torch/python/distributed/rpc.py: which workers hold
-- which part, from what the workers of the group report.
use mathlib.Core.List.{append-nil, append_assoc}
use graphlearn_for_pytorch.Prelude.{
  ℕ, ◌≤◌, ◌<◌, ◌≡◌, ◌≢◌, inl, inr, refl, ap, sym, ◌∙◌, Bool, true, false, ◌&&◌, Option, some, List,
  [], ◌∷◌, ◌++◌, arith, ◌==◌, ==_iff, ltb, ltb→lt, if◌then◌else◌, length, get_elem?, set, replicate,
  ◌>>=◌, ◌>>◌, assert, Dict, Bool-cases, length-set, get_elem?-set_self, get_elem?-set_ne,
  get_elem?-replicate, length-replicate,
}
use graphlearn_for_pytorch.Typing.{String}
use graphlearn_for_pytorch.Distributed.Context.{DistRole, worker, server, client}

abbrev pub same_role : DistRole → DistRole → Bool
same_role worker worker = true
same_role server server = true
same_role client client = true
same_role worker server = false
same_role worker client = false
same_role server worker = false
same_role server client = false
same_role client worker = false
same_role client server = false

-- What a worker reports: its role, its number of partitions and its partition.
abbrev pub Report : Type 0
Report = DistRole × ℕ × ℕ

unfoldable pub sync_loop :
    DistRole → ℕ → List (String × Report) → List (List String) → Option (List (List String))
sync_loop ctx_role num_data_partitions [] partition2workers = some partition2workers
sync_loop ctx_role num_data_partitions ((worker_name, (role, nparts, idx)) ∷ gathered)
      partition2workers =
    do
      assert (same_role role ctx_role)
      assert (nparts == num_data_partitions)
      workers ← get_elem? partition2workers idx
      sync_loop ctx_role num_data_partitions gathered
          (set partition2workers idx (workers ++ worker_name ∷ []))

-- `gathered` is the result of `all_gather` in the role group.
unfoldable pub rpc_sync_data_partitions :
    DistRole → ℕ → Dict String Report → Option (List (List String))
unfolding sync_loop
rpc_sync_data_partitions ctx_role num_data_partitions gathered =
    sync_loop ctx_role num_data_partitions gathered (replicate num_data_partitions [])

abbrev pub all_agree : DistRole → ℕ → List (String × Report) → Bool
all_agree ctx_role n [] = true
all_agree ctx_role n ((name, (role, nparts, idx)) ∷ gathered) =
    same_role role ctx_role && (nparts == n && (ltb idx n && all_agree ctx_role n gathered))

-- The workers that report a part, in the order of the reports.
abbrev pub workers_of : List (String × Report) → ℕ → List String
workers_of [] p = []
workers_of ((name, (role, nparts, idx)) ∷ gathered) p =
    if idx == p then name ∷ workers_of gathered p else workers_of gathered p

-- The lists of workers are `f`, for the first `n` parts.
abbrev Holds : ℕ → (ℕ → List String) → List (List String) → Type 0
Holds n f books = (length books ≡ n) × ((p : ℕ) → p < n → get_elem? books p ≡ some (f p))

same_place :
    (n idx p : ℕ) (name : String) (f : ℕ → List String) (books : List (List String))
    → idx ≡ p
    → p < n
    → length books ≡ n
    → get_elem? (set books idx (f idx ++ name ∷ [])) p ≡ some (f p ++ name ∷ [])
same_place n idx p name f books e lt len = rw e (get_elem?-set_self books p _ (omega (arith, len)))

pub differ : (a b : ℕ) → (a == b) ≡ false → a ≢ b
differ a b e = ground arith

pub not_below : (a b : ℕ) → ltb a b ≡ false → b ≤ a
not_below a b e = ground arith

pub and_true : (a b : Bool) → (a && b) ≡ true → (a ≡ true) × (b ≡ true)
and_true true b h = (refl, h)
and_true false b h = cc

merged :
    (b : Bool) (xs ws : List String) (name : String)
    → (if b then xs ++ name ∷ [] else xs) ++ ws ≡ xs ++ (if b then name ∷ ws else ws)
merged true xs ws name = append_assoc xs (name ∷ []) ws
merged false xs ws name = refl

added :
    (n idx : ℕ) (name : String) (f : ℕ → List String) (books : List (List String))
    → idx < n
    → Holds n f books
    → Holds n (λ p. if idx == p then f p ++ name ∷ [] else f p) (set books idx (f idx ++ name ∷ []))
added n idx name f books lt (len, at) = (
  length-set books idx _ ∙ len,
  λ p h. elim (Bool-cases (idx == p)) [
    | inl e ↦ rw e (same_place n idx p name f books ((==_iff idx p).0 e) h len)
    | inr e ↦ rw e (get_elem?-set_ne books idx p _ (differ idx p e) ∙ at p h)
  ],
)

loop_lem :
    (role : DistRole) (n : ℕ) (gathered : List (String × Report)) (f : ℕ → List String)
    (books : List (List String))
    → all_agree role n gathered ≡ true
    → Holds n f books
    → (out : List (List String)) × (sync_loop role n gathered books ≡ some out)
      × Holds n (λ p. f p ++ workers_of gathered p) out
unfolding sync_loop
loop_lem role n [] f books h holds =
    (books, refl, (holds.0, λ p lt. holds.1 p lt ∙ ap some (sym (append-nil (f p)))))
loop_lem role n ((name, (r, np, idx)) ∷ gathered) f books h holds =
    let (hr, h1) = and_true (same_role r role) _ h in
    let (hn, h2) = and_true (np == n) _ h1 in
    let (hi, h3) = and_true (ltb idx n) _ h2 in
    let lt : idx < n = ltb→lt idx n hi in
    let (out, run, held) =
      loop_lem role n gathered (λ p. if idx == p then f p ++ name ∷ [] else f p)
        (set books idx (f idx ++ name ∷ [])) h3 (added n idx name f books lt holds) in
    (
      out,
      rw (hr, hn, holds.1 idx lt) run,
      (
        held.0,
        λ p below. held.1 p below ∙ ap some (merged (idx == p) (f p) (workers_of gathered p) name),
      ),
    )

-- If every worker reports the same role and number of parts as the caller, and one of these parts,
-- the result has for each part the workers that report it, in the order of the reports.
pub rpc_sync_data_partitions-groups :
    (role : DistRole) (n : ℕ) (gathered : Dict String Report)
    → all_agree role n gathered ≡ true
    → (books : List (List String)) × (rpc_sync_data_partitions role n gathered ≡ some books)
      × (length books ≡ n)
      × ((p : ℕ) → p < n → get_elem? books p ≡ some (workers_of gathered p))
unfolding rpc_sync_data_partitions
rpc_sync_data_partitions-groups role n gathered h =
    let (books, run, held) =
      loop_lem role n gathered (λ p. []) (replicate n []) h
        (length-replicate n [], λ p lt. get_elem?-replicate n p [] lt) in
    (books, run, held.0, held.1)
