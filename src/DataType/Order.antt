-- ===== src/DataType/Order.antt =====
-- `merge` of crates/parq-schema/src/lib.rs and the order of promotions.
use parq.Prelude.{
  ℕ, ◌-◌, ◌≡◌, ◌≢◌, refl, sym, ap, ◌∙◌, ◌↔◌, ◌&&◌, Bool-cases, inl, inr, ==_iff, arith, ◌==◌, leb,
  max, if◌then◌else◌,
}
use parq.DataType.{
  DataType, null, boolean, int8, int16, int32, int64, uint8, uint16, uint32, uint64, float32,
  float64, date32, timestamp_us, utf8, other, tag, type_eq, merge_distinct, merge,
}

-- Null, Boolean, Int64, Float64, Utf8 in this order; every other type is between Null and Utf8 only.
pub data Widens : DataType → DataType → Type 0 where
  same : {a : DataType} → Widens a a
  from_null : {b : DataType} → Widens null b
  to_utf8 : {a : DataType} → Widens a utf8
  boolean_int64 : Widens boolean int64
  boolean_float64 : Widens boolean float64
  int64_float64 : Widens int64 float64

untag : ℕ → DataType
untag n =
    if n == 0
    then null
    else if n == 1
    then boolean
    else if n == 2
    then int64
    else if n == 3
    then float64
    else if n == 4
    then utf8
    else if n == 5
    then int8
    else if n == 6
    then int16
    else if n == 7
    then int32
    else if n == 8
    then uint8
    else if n == 9
    then uint16
    else if n == 10
    then uint32
    else if n == 11
    then uint64
    else if n == 12
    then float32
    else if n == 13
    then date32
    else if n == 14
    then timestamp_us
    else other (n - 15)

untag-tag : (a : DataType) → untag (tag a) ≡ a
unfolding untag
untag-tag null = refl
untag-tag (other n) = ground arith
untag-tag _ = refl

pub tag-injective : (a b : DataType) → tag a ≡ tag b → a ≡ b
tag-injective a b h = sym (untag-tag a) ∙ ap untag h ∙ untag-tag b

-- `merge` on the places in the enumeration.
abbrev merge_tags : ℕ → ℕ → ℕ
merge_tags a b =
    if a == b
    then a
    else if a == 0
    then b
    else if b == 0
    then a
    else if leb a 3 && leb b 3
    then max a b
    else 4

tag-merge_distinct :
    (a b : DataType) → a ≢ b → tag (merge_distinct a b) ≡ merge_tags (tag a) (tag b)
unfolding merge_distinct
tag-merge_distinct null null h = absurd (h refl)
tag-merge_distinct _ _ h = ground arith

tag-merge : (a b : DataType) → tag (merge a b) ≡ merge_tags (tag a) (tag b)
unfolding merge
tag-merge a b = elim (Bool-cases (type_eq a b)) [
  | inl e ↦ rw e
  | inr e ↦
      rw e (tag-merge_distinct a b (λ p. cc (e, (==_iff (tag a) (tag b)).1 (ap tag p))) ∙ rw e)
]

pub merge_self : (a : DataType) → merge a a ≡ a
merge_self a = tag-injective _ _ (ground (arith, tag-merge a a))

-- The order in which two types are merged does not matter.
pub merge_comm : (a b : DataType) → merge a b ≡ merge b a
merge_comm a b = tag-injective _ _ (ground (arith, tag-merge a b, tag-merge b a))

widens-merge_distinct : (a b : DataType) → Widens a (merge_distinct a b)
unfolding merge_distinct
widens-merge_distinct null b = from_null
widens-merge_distinct boolean null = same
widens-merge_distinct int64 null = same
widens-merge_distinct float64 null = same
widens-merge_distinct boolean int64 = boolean_int64
widens-merge_distinct int64 boolean = same
widens-merge_distinct boolean float64 = boolean_float64
widens-merge_distinct float64 boolean = same
widens-merge_distinct int64 float64 = int64_float64
widens-merge_distinct float64 int64 = same
widens-merge_distinct a null = same
widens-merge_distinct a _ = to_utf8

pub widens-merge_left : (a b : DataType) → Widens a (merge a b)
unfolding merge
widens-merge_left a b = elim (Bool-cases (type_eq a b)) [
  | inl e ↦ rw e same
  | inr e ↦ rw e (widens-merge_distinct a b)
]

pub widens-merge_right : (a b : DataType) → Widens b (merge a b)
widens-merge_right a b = rw merge_comm (widens-merge_left b a)

merge-null : (b : DataType) → merge null b ≡ b
merge-null b = tag-injective _ _ (ground (arith, tag-merge null b))

merge-utf8 : (a : DataType) → merge a utf8 ≡ utf8
merge-utf8 a = tag-injective _ _ (ground (arith, tag-merge a utf8))

merge-eq_of_widens : {a b : DataType} → Widens a b → merge a b ≡ b
unfolding merge
merge-eq_of_widens (same {a = a}) = merge_self a
merge-eq_of_widens (from_null {b = b}) = merge-null b
merge-eq_of_widens (to_utf8 {a = a}) = merge-utf8 a
merge-eq_of_widens boolean_int64 = refl
merge-eq_of_widens boolean_float64 = refl
merge-eq_of_widens int64_float64 = refl

pub widens_trans : {a b c : DataType} → Widens a b → Widens b c → Widens a c
widens_trans same q = q
widens_trans from_null q = from_null
widens_trans to_utf8 same = to_utf8
widens_trans to_utf8 to_utf8 = to_utf8
widens_trans boolean_int64 same = boolean_int64
widens_trans boolean_int64 to_utf8 = to_utf8
widens_trans boolean_int64 int64_float64 = boolean_float64
widens_trans boolean_float64 same = boolean_float64
widens_trans boolean_float64 to_utf8 = to_utf8
widens_trans int64_float64 same = int64_float64
widens_trans int64_float64 to_utf8 = to_utf8

-- two different types below a third that is not Utf8
pub merge-widens : {a b c : DataType} → Widens a c → Widens b c → Widens (merge a b) c
unfolding merge
merge-widens {a} same q = rw (merge_comm, merge-eq_of_widens q) same
merge-widens {b} from_null q = rw (merge-null b) q
merge-widens to_utf8 q = to_utf8
merge-widens boolean_int64 same = same
merge-widens boolean_int64 from_null = boolean_int64
merge-widens boolean_int64 boolean_int64 = boolean_int64
merge-widens boolean_float64 same = same
merge-widens boolean_float64 from_null = boolean_float64
merge-widens boolean_float64 boolean_float64 = boolean_float64
merge-widens boolean_float64 int64_float64 = int64_float64
merge-widens int64_float64 same = same
merge-widens int64_float64 from_null = int64_float64
merge-widens int64_float64 boolean_float64 = int64_float64
merge-widens int64_float64 int64_float64 = int64_float64

pub widens_antisymm : {a b : DataType} → Widens a b → Widens b a → a ≡ b
widens_antisymm {a} {b} p q = cc (merge-eq_of_widens p, merge-eq_of_widens q, merge_comm a b)

-- `merge` is the least upper bound in the order of promotions: the merged type is a promotion of
-- both types, and every type that is a promotion of both is one of the merged type.
pub merge-IsJoin :
    (a b c : DataType)
    → Widens a (merge a b)
      × Widens b (merge a b)
      × ((Widens a c × Widens b c) ↔ Widens (merge a b) c)
merge-IsJoin a b c = (
  widens-merge_left a b,
  widens-merge_right a b,
  (
    λ h. merge-widens h.0 h.1,
    λ h. (widens_trans (widens-merge_left a b) h, widens_trans (widens-merge_right a b) h),
  ),
)

-- A merge is Null only of two Nulls.
pub is_null-merge : (a b : DataType) → type_eq (merge a b) null ≡ (type_eq a null && type_eq b null)
is_null-merge a b = ground (arith, tag-merge a b)
