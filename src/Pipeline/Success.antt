-- ===== src/Pipeline/Success.antt =====
-- Pipelines that return metrics, against the records of the input.
use parq.Prelude.{
  ℕ, ◌+◌, ◌≤◌, ◌≡◌, refl, ap, sym, ◌∙◌, none, some, Option, List, [], ◌∷◌, ◌++◌, map, arith, Bytes,
  length, concat, min, inl, inr,
}
use parq.Prelude.Results.{ok, Result-cases}
use parq.Text.{records}
use parq.Crates.{Crates}
use parq.Chunk.{isize_max, fixed_chunks}
use parq.Chunk.Partition.{IsUsize}
use parq.Chunk.Records.{fixed_chunks-records}
use parq.Parser.{Arrow, ParseConfig, Parsed, parse_chunk}
use parq.Parser.Outcome.{accepted, rejected}
use parq.Parser.Counts.{parse_chunk-counts}
use parq.Parser.Limit.{parse_chunk-capped}
use parq.Pipeline.{System, Reach, Rows, returned}
use parq.Pipeline.Sums.{sum_by}
use parq.Pipeline.Totals.{
  rows_of, skips_of, failures_of, batches_of, over_chunks, done_rows, done_skips, done_failures,
  returned-ok,
}
use parq.Pipeline.Delivery.{delivered}

module _ (X : Crates) where
  accepted-append :
      (rs ss : List Bytes)
      → length (accepted X (rs ++ ss)) ≡ length (accepted X rs) + length (accepted X ss)
  unfolding accepted
  accepted-append [] ss = omega arith
  accepted-append (r ∷ rs) ss = ground (arith, accepted-append rs ss)

  rejected-append :
      (rs ss : List Bytes)
      → length (rejected X (rs ++ ss)) ≡ length (rejected X rs) + length (rejected X ss)
  unfolding rejected
  rejected-append [] ss = omega arith
  rejected-append (r ∷ rs) ss = ground (arith, rejected-append rs ss)

module _ (X : Crates) (A : Arrow X) (c : ParseConfig X A) (depth : ℕ) where
  -- If no chunk fails, each has a result.
  pub no_failures :
      (k : Bytes) (ks : List Bytes)
      → over_chunks X A c depth (failures_of X A c depth) (k ∷ ks) ≡ 0
      → ((p : Parsed X A) × ((parse_chunk X A c k).result ≡ ok p))
        × (over_chunks X A c depth (failures_of X A c depth) ks ≡ 0)
  unfolding sum_by
  no_failures k ks h = elim (Result-cases (parse_chunk X A c k).result) [
    | inl (p, e) ↦ ((p, e), omega arith)
    | inr (x, e) ↦ absurd (omega (arith, ap (failures_of X A c depth) e))
  ]

  -- A pipeline that returns metrics has parsed every chunk, its counters are the sums of the
  -- chunks' counts, and the batches in the file are those of the chunks, each once: every weight
  -- of batches has the same sum over both.
  pub success_totals :
      {chunks : List Bytes} {a : System X A} {rows : Rows X A}
      → Reach X A c depth chunks a
      → returned X A a ≡ some (ok rows)
      → (over_chunks X A c depth (failures_of X A c depth) chunks ≡ 0)
        × (rows.rows_processed ≡ over_chunks X A c depth (rows_of X A c depth) chunks)
        × (rows.rows_errored ≡ over_chunks X A c depth (skips_of X A c depth) chunks)
        × ((weight : A.RecordBatch → ℕ)
            → sum_by weight a.shared.written
              ≡ over_chunks X A c depth (λ r. sum_by weight (batches_of X A c depth r)) chunks)
  success_totals {a} {rows} r h =
      let f = returned-ok X A c depth a rows h in
      (
        done_failures X A c depth r f.no_error f.tasks_done,
        sym f.rows_eq ∙ done_rows X A c depth r f.no_error f.tasks_done,
        sym f.skips_eq ∙ done_skips X A c depth r f.no_error f.tasks_done,
        λ weight. delivered X A c depth weight r f.no_error f.writer_closed,
      )

  sum_accepted :
      c.limit ≡ none
      → (ks : List Bytes) → over_chunks X A c depth (failures_of X A c depth) ks ≡ 0
      → (over_chunks X A c depth (rows_of X A c depth) ks
          ≡ length (accepted X (concat (map records ks))))
        × (over_chunks X A c depth (skips_of X A c depth) ks
            ≡ length (rejected X (concat (map records ks))))
  unfolding sum_by accepted rejected
  sum_accepted u [] h = (refl, refl)
  sum_accepted u (k ∷ ks) h =
      let ((p, e), rest) = no_failures k ks h in
      let (rows, skips, sent) = parse_chunk-counts X A c u k e in
      let (ih_rows, ih_skips) = sum_accepted u ks rest in
      (
        omega (
          arith,
          ap (rows_of X A c depth) e,
          rows,
          ih_rows,
          accepted-append X (records k) (concat (map records ks)),
        ),
        omega (
          arith,
          ap (skips_of X A c depth) e,
          skips,
          ih_skips,
          rejected-append X (records k) (concat (map records ks)),
        ),
      )

  -- Without a row limit, for an input of at most `isize::MAX` bytes, and whatever the chunk size,
  -- the number of threads and their schedule, the metrics count the records of the input that are
  -- objects and those that are not.
  pub success_records :
      c.limit ≡ none
      → (bytes : Bytes) (chunk_size : Option ℕ) {chunks : List Bytes} {a : System X A}
        {rows : Rows X A}
      → length bytes ≤ isize_max
      → IsUsize chunk_size
      → fixed_chunks bytes chunk_size ≡ some chunks
      → Reach X A c depth chunks a
      → returned X A a ≡ some (ok rows)
      → (rows.rows_processed ≡ length (accepted X (records bytes)))
        × (rows.rows_errored ≡ length (rejected X (records bytes)))
  success_records u bytes chunk_size {chunks} l s e r h =
      let (fails, processed, errored, written) = success_totals r h in
      let (rows, skips) = sum_accepted u chunks fails in
      let same = fixed_chunks-records bytes chunk_size l s e in
      (
        processed ∙ rows ∙ ap (λ rs. length (accepted X rs)) same,
        errored ∙ skips ∙ ap (λ rs. length (rejected X rs)) same,
      )

  sum_capped :
      (lim : ℕ)
      → c.limit ≡ some lim
      → (ks : List Bytes) → over_chunks X A c depth (failures_of X A c depth) ks ≡ 0
      → over_chunks X A c depth (rows_of X A c depth) ks
        ≡ sum_by (λ k. min lim (length (accepted X (records k)))) ks
  unfolding sum_by
  sum_capped lim u [] h = refl
  sum_capped lim u (k ∷ ks) h =
      let ((p, e), rest) = no_failures k ks h in
      omega (
        arith,
        ap (rows_of X A c depth) e,
        parse_chunk-capped X A c lim u k e,
        sum_capped lim u ks rest,
      )

  -- A row limit is a limit for each chunk: the rows that are counted are the sum over the chunks
  -- of their records that are objects, each sum's term cut off at the limit.
  pub success_limit :
      (lim : ℕ) {chunks : List Bytes} {a : System X A} {rows : Rows X A}
      → c.limit ≡ some lim
      → Reach X A c depth chunks a
      → returned X A a ≡ some (ok rows)
      → rows.rows_processed ≡ sum_by (λ k. min lim (length (accepted X (records k)))) chunks
  success_limit lim {chunks} u r h =
      let (fails, processed, errored, written) = success_totals r h in
      processed ∙ sum_capped lim u chunks fails
