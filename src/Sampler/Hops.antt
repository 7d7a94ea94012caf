-- ===== src/Sampler/Hops.antt =====
-- The hops of a sampler on a heterogeneous graph: `_set_num_neighbors_and_num_hops` of
-- graphlearn_torch/python/sampler/neighbor_sampler.py.
use mathlib.Core.Path.{subst}
use graphlearn_for_pytorch.Prelude.{
  ◌↔◌, Option-cases, >>=-eq-some, some_pair, ℕ, ◌≡◌, ◌≤◌, refl, sym, ap, ◌∙◌, inl, inr, Option,
  none, some, List, [], ◌∷◌, map, ◌==◌, ==_iff, leb, if◌then◌else◌, length, ◌>>◌, assert, Dict,
  Bool-cases, arith,
}
use graphlearn_for_pytorch.Typing.{EdgeType}

-- One list for all edge types, or a list for each.
pub data NumNeighbors : Type 0 where
  for_all : List ℕ → NumNeighbors
  per_type : Dict EdgeType (List ℕ) → NumNeighbors

abbrev pub larger : ℕ → ℕ → ℕ
larger a b = if leb a b then b else a

-- `max([0] + [len(v) for v in num_neighbors.values()])`
abbrev pub max_hops : Dict EdgeType (List ℕ) → ℕ
max_hops [] = 0
max_hops ((key, value) ∷ num_neighbors) = larger (length value) (max_hops num_neighbors)

abbrev pub check_hops : ℕ → Dict EdgeType (List ℕ) → Option (Unit {0})
check_hops num_hops [] = some tt
check_hops num_hops ((key, value) ∷ num_neighbors) =
    assert (length value == num_hops) >> check_hops num_hops num_neighbors

abbrev pub by_type : List EdgeType → NumNeighbors → Dict EdgeType (List ℕ)
by_type edge_types (for_all nums) = map (λ key. (key, nums)) edge_types
by_type edge_types (per_type num_neighbors) = num_neighbors

abbrev checked : ℕ → Dict EdgeType (List ℕ) → Option (Dict EdgeType (List ℕ) × ℕ)
checked num_hops numbers = check_hops num_hops numbers >> some (numbers, num_hops)

-- The numbers of each edge type, and the number of hops.
unfoldable pub set_num_neighbors_and_num_hops :
    List EdgeType → NumNeighbors → Option (Dict EdgeType (List ℕ) × ℕ)
set_num_neighbors_and_num_hops edge_types num_neighbors =
    let numbers = by_type edge_types num_neighbors in checked (max_hops numbers) numbers

-- Every list of numbers has `n` hops.
abbrev pub HaveHops : ℕ → Dict EdgeType (List ℕ) → Type 0
HaveHops n [] = Unit
HaveHops n ((key, value) ∷ num_neighbors) = (length value ≡ n) × HaveHops n num_neighbors

larger_le : (a b n : ℕ) → a ≤ n → b ≤ n → larger a b ≤ n
larger_le a b n h k = ground arith

max_le : (n : ℕ) (d : Dict EdgeType (List ℕ)) → HaveHops n d → max_hops d ≤ n
max_le n [] h = omega arith
max_le n ((key, value) ∷ d) (e, h) =
    larger_le (length value) (max_hops d) n (omega (arith, e)) (max_le n d h)

larger_ge : (a b : ℕ) → a ≤ larger a b
larger_ge a b = ground arith

max_of_same :
    (n : ℕ) (key : EdgeType) (value : List ℕ) (d : Dict EdgeType (List ℕ))
    → HaveHops n ((key, value) ∷ d)
    → max_hops ((key, value) ∷ d) ≡ n
max_of_same n key value d h =
    omega (arith, max_le n ((key, value) ∷ d) h, larger_ge (length value) (max_hops d), h.0)

check_same : (n : ℕ) (d : Dict EdgeType (List ℕ)) → HaveHops n d → check_hops n d ≡ some tt
check_same n [] h = refl
check_same n ((key, value) ∷ d) (e, h) = rw ((==_iff (length value) n).1 e) (check_same n d h)

checked_same : (n : ℕ) (d : Dict EdgeType (List ℕ)) → check_hops n d ≡ some tt → HaveHops n d
checked_same n [] h = tt
checked_same n ((key, value) ∷ d) h = elim (Bool-cases (length value == n)) [
  | inl e ↦ (
    (==_iff (length value) n).0 e,
    checked_same n d (subst (λ b. (assert b >> check_hops n d) ≡ some tt) e h),
  )
  | inr e ↦
      let clash : none ≡ some tt = subst (λ b. (assert b >> check_hops n d) ≡ some tt) e h in
      absurd cc
]

-- The lists of an edge type and of the rest give the whole result, whatever the number of hops.
set_num_neighbors_lem :
    (edge_types : List EdgeType) (num_neighbors : NumNeighbors) (all : Dict EdgeType (List ℕ))
    → by_type edge_types num_neighbors ≡ all
    → set_num_neighbors_and_num_hops edge_types num_neighbors ≡ checked (max_hops all) all
unfolding set_num_neighbors_and_num_hops
set_num_neighbors_lem edge_types num_neighbors all numbers =
    ap (λ d. checked (max_hops d) d) numbers

-- A check that does not pass raises.
checked_raises : (n : ℕ) (d : Dict EdgeType (List ℕ)) → ¬ HaveHops n d → checked n d ≡ none
checked_raises n d differ = elim (Option-cases (check_hops n d)) [
  | inl raised ↦ rw raised refl
  | inr (u, passed) ↦ absurd (differ (checked_same n d passed))
]

-- With an edge type, `n` is taken as the number of hops exactly if every edge type has `n` numbers of
-- neighbors, and an error is raised exactly if some edge type has not as many as the first one.
pub set_num_neighbors-HaveHops :
    (edge_types : List EdgeType) (num_neighbors : NumNeighbors) (key : EdgeType) (value : List ℕ)
    (rest : Dict EdgeType (List ℕ)) (n : ℕ)
    → by_type edge_types num_neighbors ≡ (key, value) ∷ rest
    → ((set_num_neighbors_and_num_hops edge_types num_neighbors ≡ some ((key, value) ∷ rest, n))
        ↔ HaveHops n ((key, value) ∷ rest))
      × ((set_num_neighbors_and_num_hops edge_types num_neighbors ≡ none)
          ↔ (¬ HaveHops (length value) ((key, value) ∷ rest)))
set_num_neighbors-HaveHops edge_types num_neighbors key value rest n numbers =
    let all : Dict EdgeType (List ℕ) = (key, value) ∷ rest in
    let made = set_num_neighbors_lem edge_types num_neighbors all numbers in
    (
      (
        λ h.
            let (u, passed, same) = >>=-eq-some (check_hops (max_hops all) all) _ (sym made ∙ h) in
            subst (λ k. HaveHops k all) (some_pair same).1 (checked_same (max_hops all) all passed),
        λ h.
            let most : max_hops all ≡ n = max_of_same n key value rest h in
            made ∙ ap (λ k. checked k all) most ∙ rw (check_same n all h) refl,
      ),
      (
        λ raised h.
            let most : max_hops all ≡ length value = max_of_same (length value) key value rest h in
            let passed : checked (length value) all ≡ some (all, length value) =
              rw (check_same (length value) all h) refl in
            let clash : none ≡ some (all, length value) =
              sym raised ∙ made ∙ ap (λ k. checked k all) most ∙ passed in
            absurd cc,
        λ differ.
            made
            ∙ checked_raises (max_hops all) all
                (λ h. differ (subst (λ k. HaveHops k all) (sym h.0) h)),
      ),
    )
