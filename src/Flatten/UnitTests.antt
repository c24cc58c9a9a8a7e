-- ===== src/Flatten/UnitTests.antt =====
-- The unit tests of crates/parq-flatten/src/lib.rs, for every map that keeps the laws of `Crates` and
-- whatever the numbers are. `json!` lists an object's entries by their keys, in order.
use parq.Prelude.{ap, ◌≡◌, ◌∙◌, true, none, some, [], Bytes, codes, str_eq}
use parq.Json.{Value, null, bool, number, string, array, object, nil, cons, Fields, end, entry}
use parq.Crates.{Crates}
use parq.Flatten.{full_key, flatten_object}
use parq.Flatten.Leaves.{leaves, join_path, last_leaf, get-flatten_object}

module _ (X : Crates) where
  open X use {Number, get, to_string}

  -- `flatten_object(v.as_object().unwrap(), "_")`
  unfoldable pub flat : Fields Number → Fields Number
  flat m = flatten_object X m (codes "_")

  unfoldable pub FlatObjectUnchanged : (one : Number) → Type 0
  FlatObjectUnchanged one =
      let f = flat (
        entry (codes "a") (number one)
          (entry (codes "b") (string (codes "x")) (entry (codes "c") (bool true) end))) in
      (get f (codes "a") ≡ some (number one))
      × (get f (codes "b") ≡ some (string (codes "x")))
      × (get f (codes "c") ≡ some (bool true))

  unfoldable pub SingleLevelNesting : (id : Number) → Type 0
  SingleLevelNesting id =
      let f = flat (
        entry (codes "user")
          (object
            (entry (codes "id") (number id) (entry (codes "name") (string (codes "Alice")) end)))
          end) in
      (get f (codes "user_id") ≡ some (number id))
      × (get f (codes "user_name") ≡ some (string (codes "Alice")))
      × (get f (codes "user") ≡ none)

  unfoldable pub DeepNesting : (d : Number) → Type 0
  DeepNesting d =
      get
        (flat (
          entry (codes "a")
            (object (
              entry (codes "b")
                (object (entry (codes "c") (object (entry (codes "d") (number d) end)) end)) end))
            end))
        (codes "a_b_c_d")
      ≡ some (number d)

  abbrev pub tags : Value Number
  tags = array (cons (string (codes "rust")) (cons (string (codes "parquet")) nil))

  unfoldable pub ArrayBecomesJsonString : Type 0
  ArrayBecomesJsonString =
      get (flat (entry (codes "tags") tags end)) (codes "tags")
      ≡ some (string (codes "[\"rust\",\"parquet\"]"))

  unfoldable pub NullPreserved : Type 0
  NullPreserved =
      let f =
        flat
          (entry (codes "n") (object (entry (codes "y") null end)) (entry (codes "x") null end)) in
      (get f (codes "x") ≡ some null) × (get f (codes "n_y") ≡ some null)

  flat-get :
      (m : Fields Number) (k : Bytes)
      → get (flat m) k ≡ last_leaf X (codes "_") [] k (leaves X m) none
  unfolding flat
  flat-get m k = get-flatten_object X m (codes "_") k

  unchanged_test : (one : Number) → FlatObjectUnchanged one
  unfolding FlatObjectUnchanged leaves join_path last_leaf full_key str_eq
  unchanged_test one = (flat-get _ _, flat-get _ _, flat-get _ _)

  single_level_test : (id : Number) → SingleLevelNesting id
  unfolding SingleLevelNesting leaves join_path last_leaf full_key str_eq
  single_level_test id = (flat-get _ _, flat-get _ _, flat-get _ _)

  deep_test : (d : Number) → DeepNesting d
  unfolding DeepNesting leaves join_path last_leaf full_key str_eq
  deep_test d = flat-get _ _

  array_test : to_string tags ≡ codes "[\"rust\",\"parquet\"]" → ArrayBecomesJsonString
  unfolding ArrayBecomesJsonString leaves join_path last_leaf full_key str_eq
  array_test h = flat-get _ _ ∙ ap (λ s. some (string s)) h

  null_test : NullPreserved
  unfolding NullPreserved leaves join_path last_leaf full_key str_eq
  null_test = (flat-get _ _, flat-get _ _)
