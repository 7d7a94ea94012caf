-- ===== src/Distributed/Rpc/Names/Table.antt =====
-- The table of worker names of `init_rpc` against the reports that it is made from.
use mathlib.Core.Path.{subst}
use graphlearn_for_pytorch.Prelude.{
  ℕ, ◌<◌, ◌≡◌, inl, inr, refl, ap, sym, ◌∙◌, Bool, true, false, ◌&&◌, Option, none, some, List, [],
  ◌∷◌, arith, ◌==◌, ==_iff, ltb, ltb→lt, if◌then◌else◌, length, get_elem?, set, replicate, Dict,
  lookup, insert, lookup-insert, Bool-cases, length-set, get_elem?-set_self, get_elem?-set_ne,
  get_elem?-replicate, length-replicate, get_elem?-none,
}
use graphlearn_for_pytorch.Typing.{String}
use graphlearn_for_pytorch.Distributed.Context.{DistRole}
use graphlearn_for_pytorch.Distributed.Rpc.Sync.{same_role, differ, and_true, not_below}
use graphlearn_for_pytorch.Distributed.Rpc.Names.{
  same_role_iff, role_keys, Member, Names, unnamed, worker_list_for, names_loop, init_names,
}

-- The size that the reports give for a role, and the name that they give for a rank.
abbrev pub size_of : List (String × Member) → DistRole → Option ℕ
size_of [] ρ = none
size_of ((name, (role, size, rank)) ∷ ms) ρ = if same_role role ρ then some size else size_of ms ρ

abbrev pub name_at : List (String × Member) → DistRole → ℕ → Option String
name_at [] ρ k = none
name_at ((name, (role, size, rank)) ∷ ms) ρ k =
    if same_role role ρ && rank == k then some name else name_at ms ρ k

abbrev agrees : Option ℕ → ℕ → Bool
agrees none size = true
agrees (some n) size = n == size

-- A report that goes with those before it: the same size of its group, and a rank of its own.
abbrev pub fits : List (String × Member) → Member → Bool
fits before (role, size, rank) =
    agrees (size_of before role) size && (ltb rank size && unnamed (name_at before role rank))

abbrev pub all_fit : List (String × Member) → List (String × Member) → Bool
all_fit before [] = true
all_fit before ((name, m) ∷ ms) = fits before m && all_fit ((name, m) ∷ before) ms

abbrev pub after_all : List (String × Member) → List (String × Member) → List (String × Member)
after_all before [] = before
after_all before (m ∷ ms) = after_all (m ∷ before) ms

-- A list of a role against the reports.
abbrev pub IsGroup :
    List (String × Member) → DistRole → Option ℕ → Option (List (Option String)) → Type 0
IsGroup ms ρ none found = found ≡ none
IsGroup ms ρ (some n) found =
    (names : List (Option String)) × (found ≡ some names)
    × (length names ≡ n)
    × ((k : ℕ) → k < n → get_elem? names k ≡ some (name_at ms ρ k))

abbrev IsTable : List (String × Member) → Names → Type 0
IsTable ms names = (ρ : DistRole) → IsGroup ms ρ (size_of ms ρ) (lookup names ρ)

unnamed-none : (o : Option String) → unnamed o ≡ true → o ≡ none
unnamed-none none h = refl
unnamed-none (some name) h = absurd cc

-- A new name at a rank, in the list of its role and in the table.
module _ (before : List (String × Member)) (name : String) (role : DistRole) (size rank : ℕ) where
  group_with_name :
      (names : List (Option String))
      → length names ≡ size
      → rank < size
      → ((k : ℕ) → k < size → get_elem? names k ≡ some (name_at before role k))
      → (k : ℕ) → k < size
      → get_elem? (set names rank (some name)) k
        ≡ some (name_at ((name, (role, size, rank)) ∷ before) role k)
  group_with_name names len below at k lt = elim (Bool-cases (rank == k)) [
    | inl e ↦
        rw ((same_role_iff role role).1 refl, e)
          (subst (λ i. get_elem? (set names rank (some name)) i ≡ some (some name))
            ((==_iff rank k).0 e) (get_elem?-set_self names rank (some name) (omega (arith, len))))
    | inr e ↦
        rw ((same_role_iff role role).1 refl, e)
          (get_elem?-set_ne names rank k (some name) (differ rank k e) ∙ at k lt)
  ]

  other-IsGroup :
      (ρ : DistRole)
      → same_role role ρ ≡ false
      → (o : Option ℕ) (found : Option (List (Option String))) → IsGroup before ρ o found
      → IsGroup ((name, (role, size, rank)) ∷ before) ρ o found
  other-IsGroup ρ e none found g = g
  other-IsGroup ρ e (some n) found (names, is, len, at) = (names, is, len, λ k lt. rw e (at k lt))

  named-IsTable :
      (table : Names) (names : List (Option String))
      → IsTable before table
      → length names ≡ size
      → rank < size
      → ((k : ℕ) → k < size → get_elem? names k ≡ some (name_at before role k))
      → IsTable
          ((name, (role, size, rank)) ∷ before)
          (insert table role (set names rank (some name)))
  named-IsTable table names is_table len below at ρ = elim (Bool-cases (same_role role ρ)) [
    | inl e ↦ rw e (
      set names rank (some name),
      lookup-insert table role (set names rank (some name)) ρ ∙ rw e refl,
      length-set names rank (some name) ∙ len,
      λ k lt.
          subst
            (λ r.
              get_elem? (set names rank (some name)) k
              ≡ some (name_at ((name, (role, size, rank)) ∷ before) r k))
            ((same_role_iff role ρ).0 e) (group_with_name names len below at k lt),
    )
    | inr e ↦
        rw (e, lookup-insert table role (set names rank (some name)) ρ, e)
          (other-IsGroup ρ e (size_of before ρ) (lookup table ρ) (is_table ρ))
  ]

size_later :
    (ρ : DistRole) (ms : List (String × Member)) (name : String) (role : DistRole) (size rank : ℕ)
    → size_of ((name, (role, size, rank)) ∷ ms) ρ ≡ none
    → (same_role role ρ ≡ false) × (size_of ms ρ ≡ none)
size_later ρ ms name role size rank h = ground arith

no_name :
    (ρ : DistRole) (ms : List (String × Member))
    → size_of ms ρ ≡ none
    → (k : ℕ) → name_at ms ρ k ≡ none
no_name ρ [] h k = refl
no_name ρ ((name, (role, size, rank)) ∷ ms) h k =
    let (e, rest) = size_later ρ ms name role size rank h in rw e (no_name ρ ms rest k)

-- The list for a report: there when the sizes agree, and then it holds the names before.
made_list :
    (before : List (String × Member)) (role : DistRole) (size : ℕ) (o : Option ℕ)
    (found : Option (List (Option String)))
    → IsGroup before role o found
    → size_of before role ≡ o
    → agrees o size ≡ true
    → (names : List (Option String)) × (worker_list_for found size ≡ some names)
      × (length names ≡ size)
      × ((k : ℕ) → k < size → get_elem? names k ≡ some (name_at before role k))
made_list before role size none found g none_yet h = (
  replicate size none,
  rw g refl,
  length-replicate size none,
  λ k lt. get_elem?-replicate size k none lt ∙ ap some (sym (no_name role before none_yet k)),
)
made_list before role size (some n) found (names, is, len, at) known h =
    let same : n ≡ size = (==_iff n size).0 h in
    (names, rw (is, len, h) refl, len ∙ same, λ k lt. at k (omega (arith, same, lt)))

wrong_size :
    (before : List (String × Member)) (role : DistRole) (size : ℕ) (o : Option ℕ)
    (found : Option (List (Option String)))
    → IsGroup before role o found
    → agrees o size ≡ false
    → worker_list_for found size ≡ none
wrong_size before role size none found g h = absurd cc
wrong_size before role size (some n) found (names, is, len, at) h = rw (is, len, h) refl

-- A loop over reports that fit ends with a table of all of them.
loop_fits :
    (before ms : List (String × Member)) (table : Names)
    → IsTable before table
    → all_fit before ms ≡ true
    → (out : Names) × (names_loop ms table ≡ some out) × IsTable (after_all before ms) out
unfolding names_loop
loop_fits before [] table is_table h = (table, refl, is_table)
loop_fits before ((name, (role, size, rank)) ∷ ms) table is_table h =
    let (fit, rest) = and_true (fits before (role, size, rank)) _ h in
    let (sizes, fit') = and_true (agrees (size_of before role) size) _ fit in
    let (below, free) = and_true (ltb rank size) _ fit' in
    let (names, made, len, at) =
      made_list before role size (size_of before role) (lookup table role) (is_table role) refl
        sizes in
    let lt : rank < size = ltb→lt rank size below in
    let (out, run, is_out) =
      loop_fits ((name, (role, size, rank)) ∷ before) ms
        (insert table role (set names rank (some name)))
        (named-IsTable before name role size rank table names is_table len lt at) rest in
    (out, rw (made, at rank lt, free) run, is_out)

-- A report that does not fit stops the loop.
loop_stops_at :
    (before ms : List (String × Member)) (table : Names)
    → IsTable before table
    → all_fit before ms ≡ false
    → names_loop ms table ≡ none
unfolding names_loop
loop_stops_at before [] table is_table h = absurd cc
loop_stops_at before ((name, (role, size, rank)) ∷ ms) table is_table h =
    elim (Bool-cases (agrees (size_of before role) size)) [
      | inr sizes ↦
          rw
            (wrong_size before role size (size_of before role) (lookup table role) (is_table role)
              sizes)
            refl
      | inl sizes ↦
          let (names, made, len, at) =
            made_list before role size (size_of before role) (lookup table role) (is_table role)
              refl sizes in
          elim (Bool-cases (ltb rank size)) [
            | inr big ↦
                rw (made, get_elem?-none names rank (omega (arith, len, not_below rank size big)))
                  refl
            | inl below ↦
                let lt : rank < size = ltb→lt rank size below in
                elim (Bool-cases (unnamed (name_at before role rank))) [
                  | inr taken ↦ rw (made, at rank lt, taken) refl
                  | inl free ↦
                      rw (made, at rank lt, free)
                        (loop_stops_at ((name, (role, size, rank)) ∷ before) ms
                          (insert table role (set names rank (some name)))
                          (named-IsTable before name role size rank table names is_table len lt at)
                          (rest_fails (agrees (size_of before role) size) (ltb rank size)
                            (unnamed (name_at before role rank)) _ sizes below free h))
                ]
          ]
    ]
  where
    rest_fails :
        (a b c d : Bool)
        → a ≡ true
        → b ≡ true
        → c ≡ true
        → ((a && (b && c)) && d) ≡ false
        → d ≡ false
    rest_fails a b c d ea eb ec h = ground arith

-- If every report gives the size that the earlier ones of its role give, and a rank below it that
-- none of them gives, and the caller's role is reported, `init_rpc` makes for each role a list of
-- its size with the name of each rank, and takes that of the caller's role as its group.
pub init_names-placed :
    (ctx_role : DistRole) (gathered : Dict String Member) (n : ℕ)
    → all_fit [] gathered ≡ true
    → size_of (after_all [] gathered) ctx_role ≡ some n
    → (names : Names) × (current : List (Option String)) × (init_names ctx_role gathered
        ≡ some (names, current))
      × IsGroup (after_all [] gathered) ctx_role (some n) (some current)
      × ((ρ : DistRole)
          → IsGroup (after_all [] gathered) ρ (size_of (after_all [] gathered) ρ) (lookup names ρ))
unfolding init_names
init_names-placed ctx_role gathered n fit size =
    let (names, run, is_table) = loop_fits [] gathered [] (λ ρ. refl) fit in
    let (current, is, len, at) : IsGroup (after_all [] gathered) ctx_role (some n)
        (lookup names ctx_role) =
      subst (λ o. IsGroup (after_all [] gathered) ctx_role o (lookup names ctx_role)) size
        (is_table ctx_role) in
    (names, current, rw (run, is) refl, (current, refl, len, at), is_table)

-- If a report gives another size for its role than an earlier one, or a rank that is not below its
-- size or is an earlier one's, `init_rpc` raises.
pub init_names-raises :
    (ctx_role : DistRole) (gathered : Dict String Member)
    → all_fit [] gathered ≡ false
    → init_names ctx_role gathered ≡ none
unfolding init_names
init_names-raises ctx_role gathered h = rw (loop_stops_at [] gathered [] (λ ρ. refl) h) refl
