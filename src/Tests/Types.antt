-- ===== src/Tests/Types.antt =====
-- An edge type, reversed twice.
use graphlearn_for_pytorch.Prelude.{◌≡◌, refl, some}
use graphlearn_for_pytorch.Typing.{EdgeType, split_once, reverse_edge_type}
use graphlearn_for_pytorch.Typing.Reverse.{reverse_edge_type_twice}

plain_name : (split_once "buys").0 ≡ "buys"
unfolding split_once
plain_name = refl

reverse_edge_type_twice_example :
    (reversed : EdgeType) × (reverse_edge_type ("user", "buys", "item") ≡ some reversed)
    × (reverse_edge_type reversed ≡ some ("user", "buys", "item"))
reverse_edge_type_twice_example =
    reverse_edge_type_twice "user" "buys" "item" refl (rw plain_name refl)
