-- ===== src/Flatten/Nested.antt =====
-- What `flatten_object` leaves at a key that holds objects: nothing.
use parq.Prelude.{
  append_assoc, ℕ, ◌≡◌, ◌≢◌, refl, sym, ◌∙◌, subst, false, Bool-cases, inl, inr, Option, none, [],
  ◌∷◌, ◌++◌, map, Bytes, codes, Lacks, str_eq, str_eq_iff,
}
use parq.Json.{Value, null, array, object, Fields, end, entry}
use parq.Crates.{Crates}
use parq.Flatten.{full_key, flatten_object}
use parq.Flatten.Leaves.{
  leaves, last_leaf, last_leaf-append, last_leaf-below, get-flatten_object, join_path,
}

Lacks-middle : (b : ℕ) (s t : Bytes) → ¬ Lacks b (s ++ b ∷ t)
Lacks-middle b [] t h = h.0 refl
Lacks-middle b (c ∷ s) t h = Lacks-middle b s t h.1

-- A joined key has the separator.
joined_differs :
    (prefix key k : Bytes)
    → prefix ≢ []
    → Lacks b'_' k
    → str_eq (full_key (codes "_") prefix key) k ≡ false
unfolding full_key
joined_differs [] key k p h = absurd (p refl)
joined_differs (c ∷ prefix) key k p h =
    elim (Bool-cases (str_eq ((c ∷ prefix) ++ codes "_" ++ key) k)) [
      | inr e ↦ e
      | inl e ↦
          let same = (str_eq_iff ((c ∷ prefix) ++ codes "_" ++ key) k).0 e in
          let split = append_assoc (c ∷ prefix) (codes "_") key in
          absurd (Lacks-middle b'_' (c ∷ prefix) key (subst (Lacks b'_') (sym same ∙ split) h))
    ]

full_key-ne-nil : (prefix key : Bytes) → prefix ≢ [] → full_key (codes "_") prefix key ≢ []
unfolding full_key
full_key-ne-nil [] key p e = absurd (p refl)
full_key-ne-nil (c ∷ prefix) key p e = cc

module _ (X : Crates) where
  open X use {Number, get, to_string}

  last_leaf-deep :
      (m : Fields Number) (prefix k : Bytes) (d : Option (Value Number))
      → prefix ≢ []
      → Lacks b'_' k
      → last_leaf X (codes "_") prefix k (leaves X m) d ≡ d
  unfolding leaves last_leaf join_path
  last_leaf-deep end prefix k d p h = refl
  last_leaf-deep (entry key (object nested) rest) prefix k d p h =
      last_leaf-append X (codes "_") prefix k (map _ (leaves X nested)) (leaves X rest) d
      ∙ last_leaf-deep rest prefix k _ p h
      ∙ last_leaf-below X (codes "_") prefix key k (leaves X nested) d
      ∙ last_leaf-deep nested (full_key (codes "_") prefix key) k d (full_key-ne-nil prefix key p) h
  last_leaf-deep (entry key (array xs) rest) prefix k d p h =
      rw (joined_differs prefix key k p h) (last_leaf-deep rest prefix k d p h)
  last_leaf-deep (entry key null rest) prefix k d p h =
      rw (joined_differs prefix key k p h) (last_leaf-deep rest prefix k d p h)
  last_leaf-deep (entry key _ rest) prefix k d p h =
      rw (joined_differs prefix key k p h) (last_leaf-deep rest prefix k d p h)

  -- At this key the object holds nothing but objects; a key that holds one is not empty.
  abbrev pub NestedAt : Bytes → Fields Number → Type 0
  NestedAt k end = Unit
  NestedAt k (entry key (object nested) rest) = (key ≢ []) × NestedAt k rest
  NestedAt k (entry key v rest) = (str_eq key k ≡ false) × NestedAt k rest

  last_leaf-nested :
      (m : Fields Number) (k : Bytes) (d : Option (Value Number))
      → Lacks b'_' k
      → NestedAt k m
      → last_leaf X (codes "_") [] k (leaves X m) d ≡ d
  unfolding leaves last_leaf join_path full_key
  last_leaf-nested end k d h n = refl
  last_leaf-nested (entry key (object nested) rest) k d h n =
      last_leaf-append X (codes "_") [] k (map _ (leaves X nested)) (leaves X rest) d
      ∙ last_leaf-nested rest k _ h n.1
      ∙ last_leaf-below X (codes "_") [] key k (leaves X nested) d
      ∙ last_leaf-deep nested key k d n.0 h
  last_leaf-nested (entry key (array xs) rest) k d h n = rw n.0 (last_leaf-nested rest k d h n.1)
  last_leaf-nested (entry key null rest) k d h n = rw n.0 (last_leaf-nested rest k d h n.1)
  last_leaf-nested (entry key _ rest) k d h n = rw n.0 (last_leaf-nested rest k d h n.1)

  pub get-flatten_nested :
      (m : Fields Number) (k : Bytes)
      → Lacks b'_' k
      → NestedAt k m
      → get (flatten_object X m (codes "_")) k ≡ none
  get-flatten_nested m k h n = get-flatten_object X m (codes "_") k ∙ last_leaf-nested m k none h n
