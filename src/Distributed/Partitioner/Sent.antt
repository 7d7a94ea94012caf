-- ===== src/Distributed/Partitioner/Sent.antt =====
-- The calls that the chunks of a worker lead to, in terms of its rows and their parts.
use graphlearn_for_pytorch.Prelude.{
  ℕ, zero, suc, ◌+◌, ◌<◌, ◌≡◌, refl, ap, sym, ◌∙◌, ◌↔◌, ◌⊎◌, inl, inr, Option, none, some, List, [],
  ◌∷◌, ◌++◌, arith, ◌==◌, length, get_elem?, some_inj, ==_iff, Bool-cases, get_elem?-append_left,
  lt-length_of_get, get_elem?-append_right,
}
use graphlearn_for_pytorch.Torch.{select}
use graphlearn_for_pytorch.Partition.Chunks.{in_part}
use graphlearn_for_pytorch.Distributed.Partitioner.{Results}
use graphlearn_for_pytorch.Distributed.Partitioner.Sums.{weigh, weigh-append}
use graphlearn_for_pytorch.Distributed.Partitioner.Values.{sent, option_weight}
use graphlearn_for_pytorch.Distributed.Partitioner.Agree.{IsSent}
use graphlearn_for_pytorch.Distributed.Partitioner.Chunked.{
  option_items, items_at, given, ids_at, given_ids, AllSplit,
}

-- A row whose part is `p`.
abbrev pub HasPart : {A : Type 0} → List A → List ℕ → ℕ → A → Type 0
HasPart xs parts p x = (k : ℕ) × (get_elem? xs k ≡ some x) × (get_elem? parts k ≡ some p)

shift :
    {A : Type 0} {x : A} (y : A) (xs : List A) (q : ℕ) (parts : List ℕ) (p : ℕ)
    → HasPart xs parts p x
    → HasPart (y ∷ xs) (q ∷ parts) p x
shift y xs q parts p (k, at, at') = (suc k, at, at')

module _ {A : Type 0} where
  first :
      (y : A) (xs : List A) (q : ℕ) (parts : List ℕ) (p : ℕ) (x : A)
      → q ≡ p
      → ((j : ℕ) → get_elem? (select xs (in_part p parts)) j ≡ some x → HasPart xs parts p x)
      → (j : ℕ) → get_elem? (y ∷ select xs (in_part p parts)) j ≡ some x
      → HasPart (y ∷ xs) (q ∷ parts) p x
  first y xs q parts p x same h zero e = (0, e, ap some same)
  first y xs q parts p x same h (suc j) e = shift y xs q parts p (h j e)

  pub select-HasPart :
      (xs : List A) (parts : List ℕ) (p : ℕ) (x : A) (j : ℕ)
      → get_elem? (select xs (in_part p parts)) j ≡ some x
      → HasPart xs parts p x
  select-HasPart [] parts p x j e = cc
  select-HasPart (y ∷ xs) [] p x j e = cc
  select-HasPart (y ∷ xs) (q ∷ parts) p x j e = elim (Bool-cases (q == p)) [
    | inl same ↦
        first y xs q parts p x ((==_iff q p).0 same) (select-HasPart xs parts p x) j (rw same at e)
    | inr ne ↦ shift y xs q parts p (select-HasPart xs parts p x j (rw ne at e))
  ]

  pub HasPart-select :
      (xs : List A) (parts : List ℕ) (p : ℕ) (x : A) (k : ℕ)
      → get_elem? xs k ≡ some x
      → get_elem? parts k ≡ some p
      → (j : ℕ) × (get_elem? (select xs (in_part p parts)) j ≡ some x)
  HasPart-select [] parts p x k e e' = cc
  HasPart-select (y ∷ xs) [] p x k e e' = cc
  HasPart-select (y ∷ xs) (q ∷ parts) p x zero e e' = (0, rw ((==_iff q p).1 (some_inj e')) e)
  HasPart-select (y ∷ xs) (q ∷ parts) p x (suc k) e e' =
      let (j, at) = HasPart-select xs parts p x k e e' in
      elim (Bool-cases (q == p)) [ inl same ↦ (suc j, rw same at) | inr ne ↦ (j, rw ne at) ]

get_elem?-append_cases :
    {A : Type 0} (xs ys : List A) (j : ℕ) (x : A)
    → get_elem? (xs ++ ys) j ≡ some x
    → (get_elem? xs j ≡ some x) ⊎ ((j' : ℕ) × (get_elem? ys j' ≡ some x))
get_elem?-append_cases [] ys j x e = inr (j, e)
get_elem?-append_cases (y ∷ xs) ys zero x e = inl e
get_elem?-append_cases (y ∷ xs) ys (suc j) x e = get_elem?-append_cases xs ys j x e

module _ {D : Type 0} where
  pub IsSent-given :
      (chunks : List (Results D)) (p i : ℕ)
      → IsSent chunks p i
      → (j : ℕ) × (get_elem? (given_ids p chunks) j ≡ some i)
  IsSent-given chunks p i s = in_chunk chunks s.c s.res_list s.in_chunks here
    where
      here : get_elem? (ids_at p s.res_list) s.k ≡ some i
      here =
          ap (λ o. get_elem? (elim o [ none ↦ [] | some (val, ids) ↦ ids ]) s.k) s.in_results
          ∙ s.in_ids

      in_chunk :
          (chunks : List (Results D)) (c : ℕ) (res : Results D)
          → get_elem? chunks c ≡ some res
          → get_elem? (ids_at p res) s.k ≡ some i
          → (j : ℕ) × (get_elem? (given_ids p chunks) j ≡ some i)
      in_chunk [] c res e h = cc
      in_chunk (r ∷ chunks) zero res e h =
          let at : get_elem? (ids_at p r) s.k ≡ some i =
            ap (λ l. get_elem? (ids_at p l) s.k) (some_inj e) ∙ h in
          (
            s.k,
            get_elem?-append_left (ids_at p r) (given_ids p chunks) s.k
                  (lt-length_of_get (ids_at p r) s.k i at)
                ∙ at,
          )
      in_chunk (r ∷ chunks) (suc c) res e h =
          let (j, at) = in_chunk chunks c res e h in
          (length (ids_at p r) + j, get_elem?-append_right (ids_at p r) (given_ids p chunks) j ∙ at)

  next-IsSent :
      (r : Results D) (chunks : List (Results D)) (p i : ℕ)
      → IsSent chunks p i
      → IsSent (r ∷ chunks) p i
  next-IsSent r chunks p i s = record {
    c = suc s.c;
    k = s.k;
    res_list = s.res_list;
    val = s.val;
    ids = s.ids;
    in_chunks = s.in_chunks;
    in_results = s.in_results;
    in_ids = s.in_ids;
  }

  first-IsSent :
      (r : Results D) (chunks : List (Results D)) (p i j : ℕ) (o : Option (Option D × List ℕ))
      → get_elem? r p ≡ o
      → get_elem? (elim o [ none ↦ [] | some (val, ids) ↦ ids ]) j ≡ some i
      → IsSent (r ∷ chunks) p i
  first-IsSent r chunks p i j none e at = cc
  first-IsSent r chunks p i j (some (val, ids)) e at = record {
    c = 0;
    k = j;
    res_list = r;
    val = val;
    ids = ids;
    in_chunks = refl;
    in_results = e;
    in_ids = at;
  }

  pub given-IsSent :
      (chunks : List (Results D)) (p i j : ℕ)
      → get_elem? (given_ids p chunks) j ≡ some i
      → IsSent chunks p i
  given-IsSent [] p i j e = cc
  given-IsSent (r ∷ chunks) p i j e =
      elim (get_elem?-append_cases (ids_at p r) (given_ids p chunks) j i e) [
        | inl at ↦ first-IsSent r chunks p i j (get_elem? r p) refl at
        | inr (j', at) ↦ next-IsSent r chunks p i (given-IsSent chunks p i j' at)
      ]

  -- What is sent to a part that is there: the ids of the rows whose part it is.
  pub AllSplit-IsSent :
      {Item : Type 0} (items : D → List Item) (n : ℕ) (ids : List ℕ) (rows : List Item)
      (parts : List ℕ) (chunks : List (Results D)) (p i : ℕ)
      → AllSplit items n ids rows parts chunks
      → p < n
      → IsSent chunks p i ↔ HasPart ids parts p i
  AllSplit-IsSent items n ids rows parts chunks p i split lt = (
    λ s.
        let (j, at) = IsSent-given chunks p i s in
        select-HasPart ids parts p i j (ap (λ l. get_elem? l j) (sym (split.all_ids p lt)) ∙ at),
    λ h.
        let (j, at) = HasPart-select ids parts p i h.0 h.1 h.2 in
        given-IsSent chunks p i j (ap (λ l. get_elem? l j) (split.all_ids p lt) ∙ at),
  )

  -- A worker's chunks send nothing to a part that is not there.
  pub AllSplit-part :
      {Item : Type 0} (items : D → List Item) (n : ℕ) (ids : List ℕ) (rows : List Item)
      (parts : List ℕ) (chunks : List (Results D)) (p i : ℕ)
      → AllSplit items n ids rows parts chunks
      → IsSent chunks p i
      → p < n
  AllSplit-part items n ids rows parts chunks p i split s = omega (
    arith,
    split.chunk_sizes s.c s.res_list s.in_chunks,
    lt-length_of_get s.res_list p _ s.in_results,
  )

  module _ {Item : Type 0} (items : D → List Item) (g : Item → ℕ) where
    weigh_chunk :
        (p : ℕ) (o : Option (Option D × List ℕ))
        → ◌≡◌ {A = ℕ}
            (elim o [ none ↦ 0 | some (val, ids) ↦ option_weight (λ d. weigh g (items d)) val ])
            (weigh g (elim o [ none ↦ [] | some (val, ids) ↦ option_items items val ]))
    weigh_chunk p none = refl
    weigh_chunk p (some (none, ids)) = refl
    weigh_chunk p (some (some d, ids)) = refl

    -- The weight of the values that chunks have for a part is that of their items.
    pub weigh-given :
        (p : ℕ) (chunks : List (Results D))
        → weigh (sent (λ d. weigh g (items d)) p) chunks ≡ weigh g (given items p chunks)
    weigh-given p [] = refl
    weigh-given p (r ∷ chunks) = omega (
      arith,
      weigh_chunk p (get_elem? r p),
      weigh-given p chunks,
      weigh-append g (items_at items p r) (given items p chunks),
    )
