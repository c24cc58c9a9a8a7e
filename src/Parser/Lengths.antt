-- ===== src/Parser/Lengths.antt =====
-- The lengths of the builders of `parse_chunk`: all are one, and a row makes each longer by one.
use parq.Prelude.{
  ℕ, zero, suc, ◌+◌, ◌<◌, ◌≡◌, refl, ap, subst, ◌∙◌, Bool, List, [], ◌∷◌, map, arith, All, length,
  length-append,
}
use parq.Prelude.Results.{ok, >>=-eq-ok}
use parq.Json.{Fields}
use parq.Crates.{Crates}
use parq.Schema.{Schema}
use parq.Columns.{ColBuilder, append, Array, finish}
use parq.Columns.Cells.{cells, append-Grows, cells-new_builder}
use parq.Parser.{Arrow, new_builders, append_fields}
use parq.Parser.Cells.{column}

module _ (X : Crates) where
  -- The number of cells of an array, and of a builder.
  abbrev pub array_len : Array X → ℕ
  array_len a = length (cells X a)

  abbrev pub builder_len : ColBuilder X → ℕ
  builder_len b = array_len (finish X b)

  -- A builder for each field, all of this length.
  abbrev pub AreOf : ℕ → Schema → List (ColBuilder X) → Type 0
  AreOf n fs bs = (length bs ≡ length fs) × All (λ b. builder_len b ≡ n) bs

  pub length-column :
      (n i : ℕ) (bs : List (ColBuilder X))
      → All (λ b. builder_len b ≡ n) bs
      → i < length bs
      → length (column X i (map (finish X) bs)) ≡ n
  length-column n i [] h l = absurd (omega arith)
  length-column n zero (b ∷ bs) h l = h.0
  length-column n (suc i) (b ∷ bs) h l = length-column n i bs h.1 (omega arith)

module _ (X : Crates) (A : Arrow X) where
  pub append_fields-AreOf :
      (n : ℕ) (fs : Schema) (bs : List (ColBuilder X)) (m : Fields X.Number) (line : ℕ)
      (lenient : Bool) {bs' : List (ColBuilder X)}
      → append_fields X A fs bs m line lenient ≡ ok bs'
      → AreOf X n fs bs
      → AreOf X (n + 1) fs bs'
  unfolding append_fields
  append_fields-AreOf n [] [] m line lenient {bs'} h p =
      let same : [] ≡ bs' = cc in subst (AreOf X (n + 1) []) same (refl, tt)
  append_fields-AreOf n [] (b ∷ bs) m line lenient h p = absurd (omega (arith, p.0))
  append_fields-AreOf n (f ∷ fs) [] m line lenient h p = absurd (omega (arith, p.0))
  append_fields-AreOf n (f ∷ fs) (b ∷ bs) m line lenient {bs'} h p =
      let (b1, e, g) = >>=-eq-ok (append X b (X.get m f.name) line lenient) _ h in
      let (bs1, e1, g1) = >>=-eq-ok (append_fields X A fs bs m line lenient) _ g in
      let same : b1 ∷ bs1 ≡ bs' = cc in
      let rest = append_fields-AreOf n fs bs m line lenient e1 (omega (arith, p.0), p.1.1) in
      let grown = (append-Grows X b (X.get m f.name) line lenient e).one_more in
      subst (AreOf X (n + 1) (f ∷ fs)) same (
        omega (arith, rest.0),
        ((ap length grown ∙ length-append (cells X (finish X b)) _) ∙ omega (arith, p.1.0), rest.1),
      )

  pub new_builders-AreOf : (fs : Schema) → AreOf X 0 fs (new_builders X A fs)
  new_builders-AreOf [] = (refl, tt)
  new_builders-AreOf (f ∷ fs) =
      let rest = new_builders-AreOf fs in
      (omega (arith, rest.0), (ap length (cells-new_builder X f.data_type), rest.1))
