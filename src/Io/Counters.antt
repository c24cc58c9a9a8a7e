-- ===== src/Io/Counters.antt =====
-- The writer's counters against what it has been given.
use parq.Prelude.{
  ◌+◌, ◌≡◌, refl, ap, subst, ◌∙◌, Option, List, [], ◌∷◌, ◌++◌, append_assoc, append-nil, arith,
  Bytes, length, length-append, inl, inr,
}
use parq.Prelude.Results.{Result, ok, err, ◌>>=◌, >>=-eq-ok, Result-cases}
use parq.Error.{Failure}
use parq.Pipeline.{WriterFailure, io_failed, parquet_failed}
use parq.Crates.{Crates}
use parq.Schema.{Schema}
use parq.Parser.{Arrow}
use parq.Prepare.{Compression}
use parq.Pipeline.Sums.{sum_by, sum_by-last}
use parq.Io.{
  WriterProperties, Parquet, ParquetStreamWriter, new_writer, write_batch, write_batches,
  close_writer, writer_thread, properties,
}

module _ (X : Crates) (A : Arrow X) (Q : Parquet X A) where
  -- The file has these properties and these batches, and the counters are those of the batches.
  pub record IsCounted (props : WriterProperties) (w : ParquetStreamWriter X A Q)
      (bs : List A.RecordBatch) : Type 0 where
    pub settings : Q.settings w.inner ≡ props
    pub content : Q.content w.inner ≡ bs
    pub batches : w.batches_written ≡ length bs
    pub rows : w.rows_written ≡ sum_by Q.num_rows bs

  new_writer-IsCounted :
      (path : Bytes) (schema : Schema) (compression : Compression) (hash : Option Bytes)
      (unix_ts : Bytes) {w : ParquetStreamWriter X A Q}
      → new_writer X A Q path schema compression hash unix_ts ≡ ok w
      → IsCounted (properties compression hash unix_ts) w []
  unfolding new_writer
  new_writer-IsCounted path schema compression hash unix_ts {w} h =
      elim (Result-cases (Q.create path)) [
        | inl (file, p) ↦
            elim (Result-cases (Q.try_new file schema (properties compression hash unix_ts))) [
              | inl (v, q) ↦
                  let same : record { inner = v; batches_written = 0; rows_written = 0 } ≡ w =
                    ground arith in
                  subst (λ u. IsCounted (properties compression hash unix_ts) u []) same
                    (record {
                      settings = Q.settings-try_new file schema _ q;
                      content = Q.content-try_new file schema _ q;
                      batches = refl;
                      rows = unfold sum_by in refl;
                    })
              | inr (x, q) ↦ absurd (ground arith)
            ]
        | inr (x, p) ↦ absurd (ground arith)
      ]

  write_batch-IsCounted :
      (props : WriterProperties) (w : ParquetStreamWriter X A Q) (b : A.RecordBatch)
      (bs : List A.RecordBatch) {w' : ParquetStreamWriter X A Q}
      → write_batch X A Q w b ≡ ok w'
      → IsCounted props w bs
      → IsCounted props w' (bs ++ b ∷ [])
  unfolding write_batch
  write_batch-IsCounted props w b bs {w'} h k = elim (Result-cases (Q.write w.inner b)) [
    | inl (v, p) ↦
        let same : record {
          inner = v;
          batches_written = w.batches_written + 1;
          rows_written = w.rows_written + Q.num_rows b;
        }
            ≡ w' =
          ground arith in
        subst (λ u. IsCounted props u (bs ++ b ∷ [])) same
          (record {
            settings = Q.settings-write w.inner b p ∙ k.settings;
            content = Q.content-write w.inner b p ∙ ap (λ l. l ++ b ∷ []) k.content;
            batches = omega (arith, k.batches, length-append bs (b ∷ []));
            rows = omega (arith, k.rows, sum_by-last Q.num_rows bs b);
          })
    | inr (x, p) ↦ absurd (ground arith)
  ]

  write_batches-IsCounted :
      (props : WriterProperties) (bs : List A.RecordBatch) (w : ParquetStreamWriter X A Q)
      (before : List A.RecordBatch) {w' : ParquetStreamWriter X A Q}
      → write_batches X A Q w bs ≡ ok w'
      → IsCounted props w before
      → IsCounted props w' (before ++ bs)
  unfolding write_batches
  write_batches-IsCounted props [] w before {w'} h k =
      let same : w ≡ w' = cc in rw append-nil (subst (λ u. IsCounted props u before) same k)
  write_batches-IsCounted props (b ∷ bs) w before {w'} h k =
      let (w1, e, f) = >>=-eq-ok (write_batch X A Q w b) _ h in
      subst (IsCounted props w') (append_assoc before (b ∷ []) bs) (
        write_batches-IsCounted props bs w1 (before ++ b ∷ []) f
          (write_batch-IsCounted props w b before e k))

  -- An error of the writer thread is one that `?` passes on.
  abbrev FailsWell : {B : Type 0} → Result (Failure X) B → Type 0
  FailsWell (ok b) = Unit
  FailsWell (err e) = WriterFailure X A e

  new_writer-FailsWell :
      (path : Bytes) (schema : Schema) (compression : Compression) (hash : Option Bytes)
      (unix_ts : Bytes)
      → FailsWell (new_writer X A Q path schema compression hash unix_ts)
  unfolding new_writer
  new_writer-FailsWell path schema compression hash unix_ts = elim (Result-cases (Q.create path)) [
    | inr (x, e) ↦ rw (e, FailsWell) (io_failed x)
    | inl (file, e) ↦
        rw (e, new_writer)
          (elim (Result-cases (Q.try_new file schema (properties compression hash unix_ts))) [
            | inr (x, f) ↦ rw (f, FailsWell) (parquet_failed x)
            | inl (v, f) ↦ rw (f, FailsWell) tt
          ])
  ]

  write_batch-FailsWell :
      (w : ParquetStreamWriter X A Q) (b : A.RecordBatch) → FailsWell (write_batch X A Q w b)
  unfolding write_batch
  write_batch-FailsWell w b = elim (Result-cases (Q.write w.inner b)) [
    | inl (v, e) ↦ rw (e, FailsWell) tt
    | inr (x, e) ↦ rw (e, FailsWell) (parquet_failed x)
  ]

  close_writer-FailsWell : (w : ParquetStreamWriter X A Q) → FailsWell (close_writer X A Q w)
  unfolding close_writer
  close_writer-FailsWell w = elim (Result-cases (Q.finish w.inner)) [
    | inl (v, e) ↦ rw (e, FailsWell) tt
    | inr (x, e) ↦ rw (e, FailsWell) (parquet_failed x)
  ]

  >>=-FailsWell :
      {B C : Type 0} (r : Result (Failure X) B) (f : B → Result (Failure X) C)
      → FailsWell r
      → ((b : B) → FailsWell (f b))
      → FailsWell (r >>= f)
  >>=-FailsWell (ok b) f h k = k b
  >>=-FailsWell (err e) f h k = h

  write_batches-FailsWell :
      (bs : List A.RecordBatch) (w : ParquetStreamWriter X A Q)
      → FailsWell (write_batches X A Q w bs)
  unfolding write_batches
  write_batches-FailsWell [] w = tt
  write_batches-FailsWell (b ∷ bs) w =
      >>=-FailsWell _ _ (write_batch-FailsWell w b) (λ w'. write_batches-FailsWell bs w')

  -- What the thread leaves: its batches in the file, or one of its failures.
  abbrev pub IsWritten :
      WriterProperties
      → List A.RecordBatch
      → Result (Failure X) (ParquetStreamWriter X A Q)
      → Type 0
  IsWritten props bs (ok w) = IsCounted props w bs
  IsWritten props bs (err e) = WriterFailure X A e

  both-IsWritten :
      (props : WriterProperties) (bs : List A.RecordBatch)
      (r : Result (Failure X) (ParquetStreamWriter X A Q))
      → FailsWell r
      → ((w : ParquetStreamWriter X A Q) → r ≡ ok w → IsCounted props w bs)
      → IsWritten props bs r
  both-IsWritten props bs (ok w) h k = k w refl
  both-IsWritten props bs (err e) h k = h

  pub writer_thread-IsWritten :
      (path : Bytes) (schema : Schema) (compression : Compression) (hash : Option Bytes)
      (unix_ts : Bytes) (bs : List A.RecordBatch)
      → IsWritten
          (properties compression hash unix_ts)
          bs
          (writer_thread X A Q path schema compression hash unix_ts bs)
  unfolding writer_thread
  writer_thread-IsWritten path schema compression hash unix_ts bs =
      both-IsWritten props bs _
        (>>=-FailsWell _ _ (new_writer-FailsWell path schema compression hash unix_ts) (λ w.
          >>=-FailsWell _ _ (write_batches-FailsWell bs w)
            (λ w'. >>=-FailsWell _ _ (close_writer-FailsWell w') (λ u. tt))))
        (λ w h. written h)
    where
      props : WriterProperties
      props = properties compression hash unix_ts

      written :
          {w : ParquetStreamWriter X A Q}
          → writer_thread X A Q path schema compression hash unix_ts bs ≡ ok w
          → IsCounted props w bs
      written {w} h =
          let (w0, e, f) = >>=-eq-ok (new_writer X A Q path schema compression hash unix_ts) _ h in
          let (w1, g, q) = >>=-eq-ok (write_batches X A Q w0 bs) _ f in
          let (u, d, same) = >>=-eq-ok (close_writer X A Q w1) _ q in
          let eq : w1 ≡ w = cc in
          subst (λ v. IsCounted props v bs) eq
            (write_batches-IsCounted props bs w0 [] g
              (new_writer-IsCounted path schema compression hash unix_ts e))

  -- the same, where the thread is known to have ended well
  pub writer_thread-IsCounted :
      (path : Bytes) (schema : Schema) (compression : Compression) (hash : Option Bytes)
      (unix_ts : Bytes) (bs : List A.RecordBatch) {w : ParquetStreamWriter X A Q}
      → writer_thread X A Q path schema compression hash unix_ts bs ≡ ok w
      → IsCounted (properties compression hash unix_ts) w bs
  writer_thread-IsCounted path schema compression hash unix_ts bs h =
      subst (IsWritten (properties compression hash unix_ts) bs) h
        (writer_thread-IsWritten path schema compression hash unix_ts bs)
