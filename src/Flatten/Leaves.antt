-- ===== src/Flatten/Leaves.antt =====
-- `flatten_object` against the list of the leaves of an object, each with the path to it.
use parq.Prelude.{
  ℕ, ◌≡◌, refl, sym, ap, ◌∙◌, append_assoc, append-nil, Option, none, some, List, [], ◌∷◌, ◌++◌,
  map, Bytes, str_eq, if◌then◌else◌, All, All-append,
}
use parq.Json.{Value, string, array, object, Fields, end, entry}
use parq.Crates.{Crates}
use parq.Flatten.{full_key, flatten_rec, flatten_object}

-- The key that the code builds for a path behind a prefix.
unfoldable pub join_path : Bytes → Bytes → List Bytes → Bytes
join_path sep prefix [] = prefix
join_path sep prefix (k ∷ ks) = join_path sep (full_key sep prefix k) ks

-- Each key of a path behind a separator.
abbrev separated : Bytes → List Bytes → Bytes
separated sep [] = []
separated sep (k ∷ ks) = sep ++ (k ++ separated sep ks)

-- The name of a path: its keys, a separator between any two, and the empty keys in front left out
-- with their separators.
abbrev pub path_name : Bytes → List Bytes → Bytes
path_name sep [] = []
path_name sep ([] ∷ ks) = path_name sep ks
path_name sep ((c ∷ k) ∷ ks) = (c ∷ k) ++ separated sep ks

join_path-separated :
    (sep : Bytes) (c : ℕ) (prefix : Bytes) (ks : List Bytes)
    → join_path sep (c ∷ prefix) ks ≡ (c ∷ prefix) ++ separated sep ks
unfolding join_path full_key
join_path-separated sep c prefix [] = sym (append-nil (c ∷ prefix))
join_path-separated sep c prefix (k ∷ ks) =
    join_path-separated sep c (prefix ++ sep ++ k) ks ∙ simp (append_assoc)

join_path-path_name : (sep : Bytes) (ks : List Bytes) → join_path sep [] ks ≡ path_name sep ks
unfolding join_path full_key
join_path-path_name sep [] = refl
join_path-path_name sep ([] ∷ ks) = join_path-path_name sep ks
join_path-path_name sep ((c ∷ k) ∷ ks) = join_path-separated sep c k ks

module _ (X : Crates) where
  open X use {Number, get, insert, to_string}

  -- a leaf is a value that is no object; an array counts as its JSON text
  abbrev pub Leaf : Type 0
  Leaf = List Bytes × Value Number

  abbrev pub below : Bytes → Leaf → Leaf
  below key (path, v) = (key ∷ path, v)

  unfoldable pub leaves : Fields Number → List Leaf
  leaves end = []
  leaves (entry key (object nested) rest) = map (below key) (leaves nested) ++ leaves rest
  leaves (entry key (array xs) rest) = (key ∷ [], string (to_string (array xs))) ∷ leaves rest
  leaves (entry key scalar rest) = (key ∷ [], scalar) ∷ leaves rest

  -- The value of the last leaf with a name, or else `d`.
  unfoldable pub last_leaf :
      Bytes → Bytes → Bytes → List Leaf → Option (Value Number) → Option (Value Number)
  last_leaf sep prefix k [] d = d
  last_leaf sep prefix k ((path, v) ∷ ls) d =
      last_leaf sep prefix k ls (if str_eq (join_path sep prefix path) k then some v else d)

  pub last_leaf-append :
      (sep prefix k : Bytes) (ls ms : List Leaf) (d : Option (Value Number))
      → last_leaf sep prefix k (ls ++ ms) d
        ≡ last_leaf sep prefix k ms (last_leaf sep prefix k ls d)
  unfolding last_leaf
  last_leaf-append sep prefix k [] ms d = refl
  last_leaf-append sep prefix k ((path, v) ∷ ls) ms d = last_leaf-append sep prefix k ls ms _

  pub last_leaf-below :
      (sep prefix key k : Bytes) (ls : List Leaf) (d : Option (Value Number))
      → last_leaf sep prefix k (map (below key) ls) d
        ≡ last_leaf sep (full_key sep prefix key) k ls d
  unfolding last_leaf join_path
  last_leaf-below sep prefix key k [] d = refl
  last_leaf-below sep prefix key k ((path, v) ∷ ls) d = last_leaf-below sep prefix key k ls _

  last_leaf-insert :
      (sep prefix key k : Bytes) (v : Value Number) (ls : List Leaf) (out : Fields Number)
      → last_leaf sep prefix k ls (get (insert out (full_key sep prefix key) v) k)
        ≡ last_leaf sep prefix k ((key ∷ [], v) ∷ ls) (get out k)
  unfolding last_leaf join_path
  last_leaf-insert sep prefix key k v ls out = rw X.get-insert

  get-flatten_rec :
      (sep : Bytes) (m : Fields Number) (prefix k : Bytes) (out : Fields Number)
      → get (flatten_rec X sep m prefix out) k ≡ last_leaf sep prefix k (leaves m) (get out k)
  unfolding flatten_rec leaves
  get-flatten_rec sep end prefix k out = unfold last_leaf in refl
  get-flatten_rec sep (entry key (object nested) rest) prefix k out = rw (
    get-flatten_rec sep rest prefix k _,
    get-flatten_rec sep nested (full_key sep prefix key) k out,
    last_leaf-append,
    last_leaf-below,
  )
  get-flatten_rec sep (entry key (array xs) rest) prefix k out =
      get-flatten_rec sep rest prefix k _ ∙ last_leaf-insert sep prefix key k _ (leaves rest) out
  get-flatten_rec sep (entry key v rest) prefix k out =
      get-flatten_rec sep rest prefix k _ ∙ last_leaf-insert sep prefix key k v (leaves rest) out

  -- the leaves of the whole object
  pub get-flatten_object :
      (obj : Fields Number) (separator k : Bytes)
      → get (flatten_object X obj separator) k ≡ last_leaf separator [] k (leaves obj) none
  unfolding flatten_object
  get-flatten_object obj separator k =
      get-flatten_rec separator obj [] k end
      ∙ ap (last_leaf separator [] k (leaves obj)) (X.get-end k)

  -- Neither an object nor an array.
  abbrev pub IsScalar : Value Number → Type 0
  IsScalar (object m) = ⊥
  IsScalar (array xs) = ⊥
  IsScalar _ = Unit

  abbrev pub LeafIsScalar : Leaf → Type 0
  LeafIsScalar (path, v) = IsScalar v

  below-LeafIsScalar :
      (key : Bytes) (ls : List Leaf) → All LeafIsScalar ls → All LeafIsScalar (map (below key) ls)
  below-LeafIsScalar key [] h = tt
  below-LeafIsScalar key ((path, v) ∷ ls) h = (h.0, below-LeafIsScalar key ls h.1)

  leaves-scalar : (m : Fields Number) → All LeafIsScalar (leaves m)
  unfolding leaves
  leaves-scalar end = tt
  leaves-scalar (entry key (object nested) rest) =
      All-append LeafIsScalar (map (below key) (leaves nested)) (leaves rest)
        (below-LeafIsScalar key (leaves nested) (leaves-scalar nested)) (leaves-scalar rest)
  leaves-scalar (entry key (array xs) rest) = (tt, leaves-scalar rest)
  leaves-scalar (entry key _ rest) = (tt, leaves-scalar rest)

  -- The value of the last leaf whose path has a name, or else `d`.
  abbrev pub named_leaf : Bytes → Bytes → List Leaf → Option (Value Number) → Option (Value Number)
  named_leaf sep k [] d = d
  named_leaf sep k ((path, v) ∷ ls) d =
      named_leaf sep k ls (if str_eq (path_name sep path) k then some v else d)

  last_leaf-named_leaf :
      (sep k : Bytes) (ls : List Leaf) (d : Option (Value Number))
      → last_leaf sep [] k ls d ≡ named_leaf sep k ls d
  unfolding last_leaf
  last_leaf-named_leaf sep k [] d = refl
  last_leaf-named_leaf sep k ((path, v) ∷ ls) d =
      rw (← join_path-path_name sep path) (last_leaf-named_leaf sep k ls _)

  -- Each leaf of the object is neither an object nor an array, and each key of the flattened object
  -- has the value of the last leaf whose path has that key as its name: the keys on the way to the
  -- leaf, outermost first, with the separator between any two, where empty keys in front are left
  -- out with their separators. A key that names no leaf is not in the flattened object.
  pub flatten_object_lem :
      (obj : Fields Number) (separator : Bytes)
      → All LeafIsScalar (leaves obj)
        × ((k : Bytes)
            → get (flatten_object X obj separator) k ≡ named_leaf separator k (leaves obj) none)
  flatten_object_lem obj separator = (
    leaves-scalar obj,
    λ k. get-flatten_object obj separator k ∙ last_leaf-named_leaf separator k (leaves obj) none,
  )
