-- ===== src/Typing/Reverse.antt =====
-- `reverse_edge_type` of graphlearn_torch/python/typing.py, applied twice.
use Prim.Native.String.{◌++◌}
use Prim.Native.String.append
use text.Mathlib.Text.{◌==◌ as str_eq}
use text.Mathlib.TextEquality.{eq_iff}
use graphlearn_for_pytorch.Prelude.{◌≡◌, refl, ap, ◌∙◌, false, some, arith}
use graphlearn_for_pytorch.Typing.{String, EdgeType, split_once, reverse_edge_type}

spelled :
    (edge : String)
    → ("rev_" ++ edge) ≡ String.◌∷◌ "r" (String.◌∷◌ "e" (String.◌∷◌ "v" (String.◌∷◌ "_" edge)))
spelled edge =
    append.cons "r" "ev_" edge
    ∙ ap (String.◌∷◌ "r") (
        append.cons "e" "v_" edge
        ∙ ap (String.◌∷◌ "e") (
            append.cons "v" "_" edge
            ∙ ap (String.◌∷◌ "v")
                (append.cons "_" "" edge ∙ ap (String.◌∷◌ "_") (append.nil edge))))

split_rev : (edge : String) → split_once ("rev_" ++ edge) ≡ ("rev", some edge)
unfolding split_once
split_rev edge = rw (spelled edge) refl

swapped : (s t : String) → str_eq s t ≡ false → str_eq t s ≡ false
swapped s t h = ground (arith, eq_iff s t, eq_iff t s)

-- Between different node types, an edge whose name up to the first underscore, or as a whole if it
-- has none, is not `rev` is reversed and reversed back to itself.
pub reverse_edge_type_twice :
    (src edge dst : String)
    → str_eq src dst ≡ false
    → str_eq (split_once edge).0 "rev" ≡ false
    → (reversed : EdgeType) × (reverse_edge_type (src, edge, dst) ≡ some reversed)
      × (reverse_edge_type reversed ≡ some (src, edge, dst))
unfolding reverse_edge_type
reverse_edge_type_twice src edge dst h k =
    ((dst, "rev_" ++ edge, src), rw (h, k) refl, rw (swapped src dst h, split_rev edge) refl)
