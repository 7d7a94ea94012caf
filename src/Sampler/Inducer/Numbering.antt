-- ===== src/Sampler/Inducer/Numbering.antt =====
-- The numbers that an inducer gives are the positions of the nodes in the order of their coming.
use mathlib.Core.List.{append-nil, append_assoc}
use graphlearn_for_pytorch.Prelude.{
  ℕ, zero, suc, ◌<◌, ◌≡◌, ◌⊎◌, inl, inr, refl, ap, sym, ◌∙◌, true, false, none, some, List, [], ◌∷◌,
  ◌++◌, arith, ◌==◌, ==_iff, if◌then◌else◌, lookup, lookup-insert, nat_keys, length, get_elem?,
  lt-length_of_get, length-append, get_elem?-append_left, Option-cases, Bool-cases, some_inj,
}
use graphlearn_for_pytorch.Torch.{contains, contains_at, contains-absent}
use graphlearn_for_pytorch.Sampler.Inducer.{Inducer, reset, numbered, insert_nodes}

-- The nodes that are not among those seen, each once, in order.
abbrev pub fresh : List ℕ → List ℕ → List ℕ
fresh seen [] = []
fresh seen (node ∷ nodes) = elim (contains seen node) [
  | true ↦ fresh seen nodes
  | false ↦ node ∷ fresh (seen ++ node ∷ []) nodes
]

-- The table sends exactly the nodes to their positions.
pub record IsNumbering (inducer : Inducer) (nodes : List ℕ) : Type 0 where
  pub size : inducer.nodes_size ≡ length nodes
  pub sound : (v i : ℕ) → lookup inducer.glob2local v ≡ some i → get_elem? nodes i ≡ some v
  pub known : (v i : ℕ) → get_elem? nodes i ≡ some v → lookup inducer.glob2local v ≡ some i

pub reset-IsNumbering : IsNumbering reset []
reset-IsNumbering = record { size = refl; sound = λ v i h. cc; known = λ v i h. cc }

-- The position of an item behind a list.
last-position :
    (xs : List ℕ) (x v i : ℕ)
    → get_elem? (xs ++ x ∷ []) i ≡ some v
    → ((i < length xs) × (get_elem? xs i ≡ some v)) ⊎ ((i ≡ length xs) × (x ≡ v))
last-position [] x v zero h = inr (refl, some_inj h)
last-position [] x v (suc i) h = cc
last-position (y ∷ xs) x v zero h = inl (omega arith, h)
last-position (y ∷ xs) x v (suc i) h = ground (arith, last-position xs x v i h)

last-there : (xs : List ℕ) (x : ℕ) → get_elem? (xs ++ x ∷ []) (length xs) ≡ some x
last-there [] x = refl
last-there (y ∷ xs) x = last-there xs x

module _ (inducer : Inducer) (seen : List ℕ) (v : ℕ) (ok : IsNumbering inducer seen)
    (new : lookup inducer.glob2local v ≡ none) where
  table-numbered :
      (w : ℕ)
      → lookup (numbered inducer v).glob2local w
        ≡ (if v == w then some inducer.nodes_size else lookup inducer.glob2local w)
  table-numbered w = lookup-insert inducer.glob2local v inducer.nodes_size w

  numbered_sound :
      (w i : ℕ)
      → lookup (numbered inducer v).glob2local w ≡ some i
      → get_elem? (seen ++ v ∷ []) i ≡ some w
  numbered_sound w i h = elim (Bool-cases (v == w)) [
    | inl e ↦
        let at : i ≡ length seen = some_inj (sym h ∙ table-numbered w ∙ rw e refl) ∙ ok.size in
        let same : v ≡ w = (==_iff v w).0 e in rw (at, ← same) (last-there seen v)
    | inr e ↦
        let old : get_elem? seen i ≡ some w =
          ok.sound w i (sym (table-numbered w ∙ rw e refl) ∙ h) in
        get_elem?-append_left seen (v ∷ []) i (lt-length_of_get seen i w old) ∙ old
  ]

  numbered_known :
      (w i : ℕ)
      → get_elem? (seen ++ v ∷ []) i ≡ some w
      → lookup (numbered inducer v).glob2local w ≡ some i
  numbered_known w i h = elim (last-position seen v w i h) [
    | inl (lt, at) ↦ table-numbered w ∙ (elim (Bool-cases (v == w)) [
      | inl e ↦ absurd (both w i ((==_iff v w).0 e) (ok.known w i at))
      | inr e ↦ rw e (ok.known w i at)
    ])
    | inr (at, same) ↦ table-numbered w ∙ rw ((==_iff v w).1 same) (ap some (ok.size ∙ sym at))
  ]
    where
      both : (w i : ℕ) → v ≡ w → lookup inducer.glob2local w ≡ some i → ⊥
      both w i e h = cc

  pub numbered-IsNumbering : IsNumbering (numbered inducer v) (seen ++ v ∷ [])
  numbered-IsNumbering = record {
    size = omega (arith, ok.size, length-append {0} seen (v ∷ []));
    sound = numbered_sound;
    known = numbered_known;
  }

-- A node is in the table exactly if it was seen.
pub lookup_cases :
    (inducer : Inducer) (seen : List ℕ) (v : ℕ)
    → IsNumbering inducer seen
    → ((i : ℕ) × (lookup inducer.glob2local v ≡ some i) × (contains seen v ≡ true))
      ⊎ ((lookup inducer.glob2local v ≡ none) × (contains seen v ≡ false))
lookup_cases inducer seen v ok = elim (Option-cases (lookup inducer.glob2local v)) [
  | inl e ↦ inr (e, contains-absent seen v (λ k at. absurd (clash k (ok.known v k at) e)))
  | inr (i, e) ↦ inl (i, e, contains_at seen v i (ok.sound v i e))
]
  where
    clash : (k : ℕ) → lookup inducer.glob2local v ≡ some k → lookup inducer.glob2local v ≡ none → ⊥
    clash k p q = cc

insert_known :
    (inducer : Inducer) (node i : ℕ) (nodes : List ℕ)
    → lookup inducer.glob2local node ≡ some i
    → insert_nodes inducer (node ∷ nodes) ≡ insert_nodes inducer nodes
unfolding insert_nodes
insert_known inducer node i nodes e = rw (e, insert_nodes) refl

insert_new :
    (inducer : Inducer) (node : ℕ) (nodes : List ℕ)
    → lookup inducer.glob2local node ≡ none
    → insert_nodes inducer (node ∷ nodes) ≡ (
      (insert_nodes (numbered inducer node) nodes).0,
      node ∷ (insert_nodes (numbered inducer node) nodes).1,
    )
unfolding insert_nodes
insert_new inducer node nodes e = rw (e, insert_nodes) refl

pub fresh_known :
    (seen : List ℕ) (node : ℕ) (nodes : List ℕ)
    → contains seen node ≡ true
    → fresh seen (node ∷ nodes) ≡ fresh seen nodes
fresh_known seen node nodes e = rw (e, fresh) refl

pub fresh_new :
    (seen : List ℕ) (node : ℕ) (nodes : List ℕ)
    → contains seen node ≡ false
    → fresh seen (node ∷ nodes) ≡ node ∷ fresh (seen ++ node ∷ []) nodes
fresh_new seen node nodes e = rw (e, fresh) refl

-- Entering nodes numbers the fresh ones behind those seen.
pub insert_nodes-numbers :
    (nodes : List ℕ) (inducer : Inducer) (seen : List ℕ)
    → IsNumbering inducer seen
    → ((insert_nodes inducer nodes).1 ≡ fresh seen nodes)
      × IsNumbering (insert_nodes inducer nodes).0 (seen ++ fresh seen nodes)
unfolding insert_nodes
insert_nodes-numbers [] inducer seen ok = (refl, rw (append-nil seen) ok)
insert_nodes-numbers (node ∷ nodes) inducer seen ok = elim (lookup_cases inducer seen node ok) [
  | inl (i, e, there) ↦
      rw (insert_known inducer node i nodes e, fresh_known seen node nodes there)
        (insert_nodes-numbers nodes inducer seen ok)
  | inr (e, absent) ↦
      let (out, last) =
        insert_nodes-numbers nodes (numbered inducer node) (seen ++ node ∷ [])
          (numbered-IsNumbering inducer seen node ok e) in
      rw (insert_new inducer node nodes e, fresh_new seen node nodes absent)
        (
          ap (◌∷◌ node) out,
          rw (← append_assoc seen (node ∷ []) (fresh (seen ++ node ∷ []) nodes)) last,
        )
]
