-- ===== src/Cli/Payload.antt =====
-- The payloads that docs/telemetry.md gives for the errors, as JSON objects on one line, and the texts
-- that `main` of crates/parq/src/main.rs prints for them.
use parq.Prelude.{
  ℕ, ◌≡◌, refl, subst, Bool, true, not, ◌&&◌, ◌==◌, List, [], ◌∷◌, ◌++◌, append_assoc, All, arith,
  Bytes, newline, codes,
}
use parq.Crates.{Crates}
use parq.Error.{
  ParqError, io, json_parse, insufficient_data, type_mismatch, arrow, parquet, config, Failure,
  parq_error, io_error, json_error, arrow_error, parquet_error, message,
}
use parq.Error.Display.{Shown, failure_text}
use parq.Text.Decimal.{decimal, IsDigit, decimal-IsDigit}
use parq.Parser.Reported.{IsNamed, IsReported}
use parq.Cli.{parq_telemetry, telemetry}

-- A text without a newline.
abbrev one_line : Bytes → Bool
one_line [] = true
one_line (c ∷ s) = not (c == newline) && one_line s

abbrev pub IsLine : Bytes → Type 0
IsLine s = one_line s ≡ true

IsLine-append : (s t : Bytes) → IsLine s → IsLine t → IsLine (s ++ t)
IsLine-append [] t h k = k
IsLine-append (c ∷ s) t h k = let rest = IsLine-append s t (ground arith) k in ground (arith, rest)

IsLine-digits : (s : Bytes) → All IsDigit s → IsLine s
IsLine-digits [] h = refl
IsLine-digits (c ∷ s) (low, h) = let rest = IsLine-digits s h in ground (arith, rest)

IsLine-decimal : (n : ℕ) → IsLine (decimal n)
IsLine-decimal n = IsLine-digits (decimal n) (decimal-IsDigit n)

-- A JSON object on one line, from its keys and the texts of their values.
abbrev in_quotes : Bytes → Bytes
in_quotes s = b'"' ∷ (s ++ b'"' ∷ [])

abbrev members : List (Bytes × Bytes) → Bytes
members [] = []
members ((key, value) ∷ []) = in_quotes key ++ b':' ∷ value
members ((key, value) ∷ m ∷ ms) = (in_quotes key ++ b':' ∷ value) ++ b',' ∷ members (m ∷ ms)

abbrev json_object : List (Bytes × Bytes) → Bytes
json_object ms = b'{' ∷ (members ms ++ b'}' ∷ [])

abbrev IsLineMember : Bytes × Bytes → Type 0
IsLineMember (key, value) = IsLine key × IsLine value

member-IsLine :
    (key value : Bytes) → IsLine key → IsLine value → IsLine (in_quotes key ++ b':' ∷ value)
member-IsLine key value h k =
    IsLine-append (in_quotes key) (b':' ∷ value) (IsLine-append key (b'"' ∷ []) h refl) k

members-IsLine : (ms : List (Bytes × Bytes)) → All IsLineMember ms → IsLine (members ms)
members-IsLine [] h = refl
members-IsLine ((key, value) ∷ []) ((h, k), hs) = member-IsLine key value h k
members-IsLine ((key, value) ∷ m ∷ ms) ((h, k), hs) =
    IsLine-append (in_quotes key ++ b':' ∷ value) (b',' ∷ members (m ∷ ms))
      (member-IsLine key value h k) (members-IsLine (m ∷ ms) hs)

json_object-IsLine : (ms : List (Bytes × Bytes)) → All IsLineMember ms → IsLine (json_object ms)
json_object-IsLine ms h = IsLine-append (members ms) (b'}' ∷ []) (members-IsLine ms h) refl

-- A payload of a kind, with one member more.
abbrev failure_object : Bytes → Bytes × Bytes → Bytes
failure_object kind m =
    json_object
      ((codes "status", in_quotes (codes "failed")) ∷ (codes "error_type", in_quotes kind) ∷ m ∷ [])

failure_object-IsLine :
    (kind key value : Bytes)
    → IsLine kind
    → IsLine key
    → IsLine value
    → IsLine (failure_object kind (key, value))
failure_object-IsLine kind key value h k v =
    let ms : List (Bytes × Bytes) =
      (codes "status", in_quotes (codes "failed"))
      ∷ (codes "error_type", in_quotes kind)
      ∷ (key, value)
      ∷ [] in
    json_object-IsLine ms
      ((refl, refl), ((refl, IsLine-append kind (b'"' ∷ []) h refl), ((k, v), tt)))

module _ (X : Crates) (S : Shown X) where
  -- The details that the payloads have.
  abbrev json_parse_details : ℕ → X.JsonError → List (Bytes × Bytes)
  json_parse_details number source =
      (codes "line", decimal number) ∷ (codes "message", S.quoted (S.json_text source)) ∷ []

  abbrev type_mismatch_details : Bytes → Bytes → Bytes → ℕ → List (Bytes × Bytes)
  type_mismatch_details field expected found number =
      (codes "field", S.quoted field)
      ∷ (codes "expected", S.quoted expected)
      ∷ (codes "found", S.quoted found)
      ∷ (codes "line", decimal number)
      ∷ []

  abbrev insufficient_data_details : ℕ → List (Bytes × Bytes)
  insufficient_data_details rows = (codes "rows", decimal rows) ∷ []

  -- an error that is not one of the crates' own
  abbrev pub IsForeign : Failure X → Type 0
  IsForeign (parq_error e) = ⊥
  IsForeign e = Unit

  -- The payloads that the telemetry's documentation gives for the errors.
  pub data IsPayload : Failure X → Bytes → Type 0 where
    json_parse_payload :
        {number : ℕ} {source : X.JsonError}
        → IsPayload (parq_error (json_parse number source)) (
            failure_object
              (codes "JsonParse")
              (codes "details", json_object (json_parse_details number source)))
    type_mismatch_payload :
        {field expected found : Bytes} {number : ℕ}
        → IsPayload (parq_error (type_mismatch field expected found number)) (
            failure_object
              (codes "TypeMismatch")
              (codes "details", json_object (type_mismatch_details field expected found number)))
    insufficient_data_payload :
        {rows : ℕ}
        → IsPayload (parq_error (insufficient_data rows)) (
            failure_object
              (codes "InsufficientData")
              (codes "details", json_object (insufficient_data_details rows)))
    generic_payload :
        {e : Failure X}
        → IsForeign e
        → IsPayload e
            (failure_object (codes "Generic") (codes "message", S.quoted (failure_text X S e)))

  IsPayload-eq : {e : Failure X} {s t : Bytes} → IsPayload e s → s ≡ t → IsPayload e t
  IsPayload-eq {e} p h = subst (IsPayload e) h p

  parq_telemetry-IsPayload :
      (e : ParqError X) → IsNamed X e → IsPayload (parq_error e) (parq_telemetry X S e)
  unfolding parq_telemetry
  parq_telemetry-IsPayload (json_parse number source) h =
      IsPayload-eq json_parse_payload (simp append_assoc)
  parq_telemetry-IsPayload (type_mismatch field expected found number) h =
      IsPayload-eq type_mismatch_payload (simp append_assoc)
  parq_telemetry-IsPayload (insufficient_data rows) h =
      IsPayload-eq insufficient_data_payload (simp append_assoc)
  parq_telemetry-IsPayload (io _) h = absurd h
  parq_telemetry-IsPayload (arrow _) h = absurd h
  parq_telemetry-IsPayload (parquet _) h = absurd h
  parq_telemetry-IsPayload (config _) h = absurd h

  pub telemetry-IsPayload : (e : Failure X) → IsReported X e → IsPayload e (telemetry X S e)
  unfolding telemetry
  telemetry-IsPayload (parq_error e) h = parq_telemetry-IsPayload e h
  telemetry-IsPayload (io_error e) h = generic_payload tt
  telemetry-IsPayload (json_error e) h = generic_payload tt
  telemetry-IsPayload (arrow_error e) h = generic_payload tt
  telemetry-IsPayload (parquet_error e) h = generic_payload tt
  telemetry-IsPayload (message s) h = generic_payload tt

  -- The payloads are single lines, if the quoted texts are.
  module _ (escaped : (s : Bytes) → IsLine (S.quoted s)) where
    pub IsPayload-IsLine : {e : Failure X} {s : Bytes} → IsPayload e s → IsLine s
    IsPayload-IsLine (json_parse_payload {number} {source}) =
        failure_object-IsLine (codes "JsonParse") (codes "details")
          (json_object (json_parse_details number source)) refl refl
          (json_object-IsLine (json_parse_details number source)
            ((refl, IsLine-decimal number), ((refl, escaped (S.json_text source)), tt)))
    IsPayload-IsLine (type_mismatch_payload {field} {expected} {found} {number}) =
        failure_object-IsLine (codes "TypeMismatch") (codes "details")
          (json_object (type_mismatch_details field expected found number)) refl refl
          (json_object-IsLine (type_mismatch_details field expected found number) (
            (refl, escaped field),
            (
              (refl, escaped expected),
              ((refl, escaped found), ((refl, IsLine-decimal number), tt)),
            ),
          ))
    IsPayload-IsLine (insufficient_data_payload {rows}) =
        failure_object-IsLine (codes "InsufficientData") (codes "details")
          (json_object (insufficient_data_details rows)) refl refl
          (json_object-IsLine (insufficient_data_details rows) ((refl, IsLine-decimal rows), tt))
    IsPayload-IsLine (generic_payload {e} h) =
        failure_object-IsLine (codes "Generic") (codes "message") (S.quoted (failure_text X S e))
          refl refl (escaped (failure_text X S e))
