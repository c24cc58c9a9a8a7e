-- ===== src/Flatten.antt =====
-- crates/parq-flatten/src/lib.rs: nested objects become one object. The output map grows by
-- `insert`; the recursion is over the entries in the order in which they are visited.
pub mod Leaves
pub mod Nested
pub mod UnitTests
mod Examples
use parq.Prelude.{Bytes, [], ◌∷◌, ◌++◌}
use parq.Json.{Value, string, array, object, Fields, end, entry}
use parq.Crates.{Crates}

-- `if prefix.is_empty() { key.clone() } else { format!("{prefix}{sep}{key}") }`
unfoldable pub full_key : Bytes → Bytes → Bytes → Bytes
full_key sep [] key = key
full_key sep (c ∷ prefix) key = (c ∷ prefix) ++ sep ++ key

module _ (X : Crates) where
  open X use {Number, insert, to_string}

  unfoldable pub flatten_rec : Bytes → Fields Number → Bytes → Fields Number → Fields Number
  flatten_rec sep end prefix out = out
  flatten_rec sep (entry key (object nested) rest) prefix out =
      flatten_rec sep rest prefix (flatten_rec sep nested (full_key sep prefix key) out)
  flatten_rec sep (entry key (array xs) rest) prefix out =
      flatten_rec sep rest prefix
        (insert out (full_key sep prefix key) (string (to_string (array xs))))
  flatten_rec sep (entry key scalar rest) prefix out =
      flatten_rec sep rest prefix (insert out (full_key sep prefix key) scalar)

  unfoldable pub flatten_object : Fields Number → Bytes → Fields Number
  unfolding flatten_rec
  flatten_object obj separator = flatten_rec separator obj [] end
