-- ===== src/Prelude/Keyed.antt =====
-- Equality as an instance, and Python's dictionaries as association lists in insertion order.
use Prim.Native.String.{String}
use mathlib.Core.Path.{◌≡◌, refl}
use mathlib.Core.Logic.{◌↔◌}
use mathlib.Core.Bool.{Bool, true, ◌&&◌}
use mathlib.Core.Option.{Option, none, some}
use mathlib.Core.List.{List, [], ◌∷◌}
use native.Mathlib.Omega.{arith}
use text.Mathlib.Text.{◌==◌ as str_eq}
use text.Mathlib.TextEquality.{eq_iff}
use Prim.Native.Nat.{ℕ}
use graphlearn_for_pytorch.Prelude.Tests.{if◌then◌else◌, ◌==◌ as nat_eq, ==_iff}

pub record Eq (K : Type 0) : Type 0 where
  pub beq : K → K → Bool
  pub beq_iff : (a b : K) → (beq a b ≡ true) ↔ (a ≡ b)

instance abbrev pub nat_keys : Eq ℕ
nat_keys = record { beq = nat_eq; beq_iff = ==_iff }

instance abbrev pub string_keys : Eq String
string_keys = record { beq = str_eq; beq_iff = eq_iff }

abbrev triple_eq : String × String × String → String × String × String → Bool
triple_eq (a, b, c) (a', b', c') = str_eq a a' && (str_eq b b' && str_eq c c')

pub triple_eq_iff : (s t : String × String × String) → (triple_eq s t ≡ true) ↔ (s ≡ t)
triple_eq_iff (a, b, c) (a', b', c') = ground (arith, eq_iff a a', eq_iff b b', eq_iff c c')

instance abbrev pub triple_keys : Eq (String × String × String)
triple_keys = record { beq = triple_eq; beq_iff = triple_eq_iff }

abbrev pub Dict : Type 0 → Type 0 → Type 0
Dict K V = List (K × V)

module _ {K V : Type 0} ⦃e : Eq K⦄ where
  -- `d[k]`; a missing key raises. `d.get(k)` has the same value, with `none` for `None`.
  abbrev pub lookup : Dict K V → K → Option V
  lookup [] k = none
  lookup ((j, v) ∷ d) k = if e.beq j k then some v else lookup d k

  -- `d[k] = v`: a key that is there keeps its place.
  abbrev pub insert : Dict K V → K → V → Dict K V
  insert [] k v = (k, v) ∷ []
  insert ((j, w) ∷ d) k v = if e.beq j k then (j, v) ∷ d else (j, w) ∷ insert d k v

  pub lookup-insert :
      (d : Dict K V) (k : K) (v : V) (j : K)
      → lookup (insert d k v) j ≡ (if e.beq k j then some v else lookup d j)
  lookup-insert [] k v j = refl
  lookup-insert ((i, w) ∷ d) k v j =
      ground (arith, e.beq_iff i k, e.beq_iff k j, e.beq_iff i j, lookup-insert d k v j)
