-- ===== src/Pipeline/Output.antt =====
-- The output file of `run_pipeline` against the records of the input: the file's batches up to
-- order, and the columns of the batches.
use parq.Prelude.{
  ℕ, ◌≤◌, ◌≡◌, refl, ap, sym, ◌∙◌, none, some, Option, List, [], ◌∷◌, ◌++◌, map, append_assoc,
  arith, Bytes, length, concat,
}
use mathlib.Core.Quot
use mathlib.Core.Quot.{Quot}
use parq.Prelude.Results.{ok}
use parq.Text.{records}
use parq.Crates.{Crates}
use parq.Chunk.{isize_max, fixed_chunks}
use parq.Chunk.Partition.{IsUsize}
use parq.Chunk.Records.{fixed_chunks-records}
use parq.Parser.{Arrow, ParseConfig, parse_chunk}
use parq.Parser.Outcome.{accepted}
use parq.Parser.Cells.{column, row_cell, column_of}
use parq.Parser.Table.{rows_column, shape, parse_chunk-column}
use parq.Pipeline.{System, Reach, Rows, returned}
use parq.Pipeline.Sums.{sum_by, sum_by-append}
use parq.Pipeline.Totals.{batches_of, failures_of, over_chunks}
use parq.Pipeline.Success.{success_totals, no_failures}

-- Lists with the same items, each as often: every weight has the same sum over both.
abbrev pub SameItems {ℓ} : {B : Type ℓ} → List B → List B → Type ℓ
SameItems {B} xs ys = (weight : B → ℕ) → sum_by weight xs ≡ sum_by weight ys

-- Lists up to the order of their items.
abbrev pub Bag {ℓ} : Type ℓ → Type ℓ
Bag B = Quot (SameItems {B = B})

abbrev pub bag_of {ℓ} : {B : Type ℓ} → List B → Bag B
bag_of = Quot.mk

module _ {ℓ} {B : Type ℓ} where
  sum_by-concat :
      (weight : B → ℕ) (xss : List (List B))
      → sum_by weight (concat xss) ≡ sum_by (sum_by weight) xss
  unfolding sum_by
  sum_by-concat weight [] = refl
  sum_by-concat weight (xs ∷ xss) =
      omega (arith, sum_by-append weight xs (concat xss), sum_by-concat weight xss)

  sum_by-map {κ} :
      {C : Type κ} (weight : B → ℕ) (f : C → B) (xs : List C)
      → sum_by weight (map f xs) ≡ sum_by (λ x. weight (f x)) xs
  unfolding sum_by
  sum_by-map weight f [] = refl
  sum_by-map weight f (x ∷ xs) = omega (arith, sum_by-map weight f xs)

module _ {ℓ κ} {B : Type ℓ} {C : Type κ} where
  concat-map-append :
      (f : B → List C) (xs ys : List B)
      → concat (map f (xs ++ ys)) ≡ concat (map f xs) ++ concat (map f ys)
  concat-map-append f [] ys = refl
  concat-map-append f (x ∷ xs) ys =
      ap (λ l. f x ++ l) (concat-map-append f xs ys)
      ∙ sym (append_assoc (f x) (concat (map f xs)) (concat (map f ys)))

module _ (X : Crates) where
  accepted_append : (rs ss : List Bytes) → accepted X (rs ++ ss) ≡ accepted X rs ++ accepted X ss
  unfolding accepted
  accepted_append [] ss = refl
  accepted_append (r ∷ rs) ss = ground (arith, accepted_append rs ss)

module _ (X : Crates) (A : Arrow X) (c : ParseConfig X A) (depth : ℕ) where
  -- The batches of all chunks, in the order of the file.
  abbrev chunk_batches : List Bytes → List A.RecordBatch
  chunk_batches ks = concat (map (λ k. batches_of X A c depth (parse_chunk X A c k).result) ks)

  chunks-column :
      c.limit ≡ none
      → (i : ℕ) (ks : List Bytes) → over_chunks X A c depth (failures_of X A c depth) ks ≡ 0
      → column_of X A i (chunk_batches ks)
        ≡ rows_column X A c i (accepted X (concat (map records ks)))
  unfolding accepted
  chunks-column u i [] h = refl
  chunks-column u i (k ∷ ks) h =
      let ((p, e), rest) = no_failures X A c depth k ks h in
      concat-map-append (λ b. column X i (A.columns b))
        (batches_of X A c depth (parse_chunk X A c k).result) (chunk_batches ks)
      ∙ ap (λ bs. column_of X A i bs ++ column_of X A i (chunk_batches ks))
          (ap (batches_of X A c depth) e)
      ∙ ap (λ l. l ++ column_of X A i (chunk_batches ks)) (parse_chunk-column X A c u k i e)
      ∙ ap (λ l. rows_column X A c i (accepted X (records k)) ++ l) (chunks-column u i ks rest)
      ∙ sym (
          concat-map-append (λ m. row_cell X i c.schema (shape X A c m)) (accepted X (records k))
            (accepted X (concat (map records ks))))
      ∙ ap (rows_column X A c i) (sym (accepted_append X (records k) (concat (map records ks))))

  same_batches :
      (ks : List Bytes) (weight : A.RecordBatch → ℕ)
      → over_chunks X A c depth (λ r. sum_by weight (batches_of X A c depth r)) ks
        ≡ sum_by weight (chunk_batches ks)
  same_batches ks weight = sym (
      sum_by-concat weight _
      ∙ sum_by-map (sum_by weight) (λ k. batches_of X A c depth (parse_chunk X A c k).result) ks)

  -- Without a row limit, a pipeline that returns metrics has written, up to the order of the
  -- batches, a list of batches that is the table of the input: each of its columns has one cell for
  -- each record of the input that is an object, in the order of the input. The input has at most
  -- `isize::MAX` bytes; chunk size, threads and schedule are arbitrary.
  pub output-table :
      c.limit ≡ none
      → (bytes : Bytes) (chunk_size : Option ℕ) {chunks : List Bytes} {a : System X A}
        {rows : Rows X A}
      → length bytes ≤ isize_max
      → IsUsize chunk_size
      → fixed_chunks bytes chunk_size ≡ some chunks
      → Reach X A c depth chunks a
      → returned X A a ≡ some (ok rows)
      → (table : List A.RecordBatch) × (bag_of a.shared.written ≡ bag_of table)
        × ((i : ℕ) → column_of X A i table ≡ rows_column X A c i (accepted X (records bytes)))
  output-table u bytes chunk_size {chunks} {a} l s e r h =
      let (fails, processed, errored, written) = success_totals X A c depth r h in
      (
        chunk_batches chunks,
        Quot.sound (λ weight. written weight ∙ same_batches chunks weight),
        λ i.
            chunks-column u i chunks fails
            ∙ ap (λ rs. rows_column X A c i (accepted X rs))
                (fixed_chunks-records bytes chunk_size l s e),
      )
