-- ===== src/Flatten/Examples.antt =====
-- The theorems on flattening at small objects.
use parq.Prelude.{All, Bytes, ◌≡◌, refl, none, some, codes, str_eq}
use parq.Prelude.Int.{ℤ, pos}
use parq.Json.{object, number, Fields, end, entry}
use parq.Crates.Toy.{toy, toy_get, toy_insert}
use parq.Flatten.{flatten_object, full_key}
use parq.Flatten.Leaves.{LeafIsScalar, leaves, named_leaf, flatten_object_lem}

abbrev nested : Fields ℤ
nested =
    entry (codes "a") (object (entry (codes "x") (number (pos 7)) end))
      (entry (codes "b") (number (pos 1)) end)

nested_x : toy_get (flatten_object toy nested (codes ".")) (codes "a.x") ≡ some (number (pos 7))
unfolding flatten_object full_key toy_insert toy_get str_eq
nested_x = refl

flatten_object_lem_example :
    All (LeafIsScalar toy) (leaves toy nested)
    × ((k : Bytes)
        → toy_get (flatten_object toy nested (codes ".")) k
          ≡ named_leaf toy (codes ".") k (leaves toy nested) none)
flatten_object_lem_example = flatten_object_lem toy nested (codes ".")
