-- ===== src/Distributed/Rpc/Gather/Objects.antt =====
-- Lemmas on gathered objects and on lists of followers.
use mathlib.Core.Path.{subst}
use graphlearn_for_pytorch.Prelude.{
  ℕ, zero, suc, ◌+◌, ◌<◌, ◌≤◌, ◌≡◌, inl, inr, refl, sym, Bool, true, false, not, Option, none, some,
  List, [], ◌∷◌, ◌==◌, ==_iff, if◌then◌else◌, assert, Dict, lookup, nat_keys, range_from, arith,
  Bool-cases,
}
use graphlearn_for_pytorch.Distributed.Rpc.Sync.{and_true}
use graphlearn_for_pytorch.Distributed.Rpc.Gather.{is_some, has_names, is_in, without}

pub is_some_lem : {A : Type 0} (o : Option A) → is_some o ≡ true → (v : A) × (o ≡ some v)
is_some_lem none h = absurd cc
is_some_lem (some v) h = (v, refl)

pub below : (j k : ℕ) → j < suc k → (j == k) ≡ false → j < k
below j k lt e = ground arith

pub assert-true : {u : Unit {0}} (b : Bool) → assert b ≡ some u → b ≡ true
assert-true true h = refl
assert-true false h = absurd cc

pub not_some : {A : Type 0} (o : Option A) → not (is_some o) ≡ true → o ≡ none
not_some none h = refl
not_some (some v) h = absurd cc

pub is_in-range_from : (f k m : ℕ) → is_in f (range_from k m) ≡ true → (k ≤ f) × (f < k + m)
is_in-range_from f k zero h = absurd cc
is_in-range_from f k (suc m) h = elim (Bool-cases (f == k)) [
  | inl e ↦ let same : f ≡ k = (==_iff f k).0 e in (omega (arith, same), omega (arith, same))
  | inr e ↦
      let (least, most) =
        is_in-range_from f (suc k) m
          (subst (λ b. (if b then true else is_in f (range_from (suc k) m)) ≡ true) e h) in
      (omega (arith, least), omega (arith, most))
]

pub is_in-without : (g f : ℕ) (fs : List ℕ) → is_in g (without f fs) ≡ true → is_in g fs ≡ true
is_in-without g f [] h = h
is_in-without g f (k ∷ fs) h = elim (Bool-cases (g == k)) [
  | inl e ↦ rw e refl
  | inr e ↦ rw e (elim (Bool-cases (f == k)) [
    | inl e' ↦
        is_in-without g f fs
          (subst (λ b. is_in g (if b then without f fs else k ∷ without f fs) ≡ true) e' h)
    | inr e' ↦ is_in-without g f fs (
        subst (λ b. (if b then true else is_in g (without f fs)) ≡ true) e
          (subst (λ b. is_in g (if b then without f fs else k ∷ without f fs) ≡ true) e' h))
  ])
]

pub has_names_lem :
    {A : Type 0} (n : ℕ) (objects : Dict ℕ A)
    → has_names n objects ≡ true
    → (j : ℕ) → j < n
    → (v : A) × (lookup objects j ≡ some v)
has_names_lem {A = A} zero objects h j lt = absurd (omega (arith, lt))
has_names_lem {A = A} (suc k) objects h j lt = elim (Bool-cases (j == k)) [
  | inl e ↦
      subst (λ i. (v : A) × (lookup objects i ≡ some v)) (sym ((==_iff j k).0 e))
        (is_some_lem (lookup objects k)
          (and_true (is_some (lookup objects k)) (has_names k objects) h).0)
  | inr e ↦
      has_names_lem k objects (and_true (is_some (lookup objects k)) (has_names k objects) h).1 j
        (below j k lt e)
]
