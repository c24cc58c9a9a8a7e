-- ===== src/Metrics/Ratios.antt =====
-- The ratios of crates/parq-metrics/src/lib.rs as numbers.
use parq.Prelude.{
  refl, false, ◌≢◌, if◌then◌else◌, ℕ, ◌+◌, ◌≤◌, ◌<◌, ◌≡◌, ◌^◌, arith, Bool-cases, inl, inr, ◌==◌,
}
use parq.Metrics.{
  Floats, ProcessingMetrics, throughput_mib_per_sec, rows_per_sec, compression_ratio,
}

module _ (R : Floats) where
  open R use {F64, of_int, div, Within, Above}

  -- The numbers of a run are 64-bit unsigned integers.
  pub record IsU64 (m : ProcessingMetrics) : Type 0 where
    pub input : m.input_bytes < 2 ^ 64
    pub output : m.output_bytes < 2 ^ 64
    pub rows : m.rows_processed < 2 ^ 64
    pub time : m.total_duration_ms < 2 ^ 64

  -- Finite, and at most 2^74.
  abbrev pub IsFinite : F64 → Type 0
  IsFinite x = (e : ℕ) × (e ≤ 74) × Within e x

  ne_zero : (n : ℕ) → (n == 0) ≡ false → n ≢ 0
  ne_zero n h e = ground arith

  -- a quotient by a time in seconds
  over_seconds :
      (x : F64) (ms : ℕ)
      → Within 64 x
      → ms < 2 ^ 64
      → (ms == 0) ≡ false
      → IsFinite (div x (div (of_int ms) (of_int 1000)))
  over_seconds x ms w u h =
      let time = R.of_int-Above ms (ne_zero ms h) u in
      let thousand = R.of_int-Within 1000 10 (omega arith) (omega arith) in
      let below = R.div-Above 0 10 (of_int ms) (of_int 1000) time thousand (omega arith) in
      (64 + (0 + 10), omega arith, R.div-Within 64 (0 + 10) x _ w below (omega arith))

  rate :
      (x : F64) (ms : ℕ)
      → Within 64 x
      → ms < 2 ^ 64
      → IsFinite (if ms == 0 then R.zero else div x (div (of_int ms) (of_int 1000)))
  rate x ms w u = elim (Bool-cases (ms == 0)) [
    | inl e ↦ rw e (0, omega arith, R.zero-Within)
    | inr e ↦ rw e (over_seconds x ms w u e)
  ]

  ratio :
      (a b : ℕ)
      → a < 2 ^ 64
      → b < 2 ^ 64
      → IsFinite (if b == 0 then R.zero else div (of_int a) (of_int b))
  ratio a b u v = elim (Bool-cases (b == 0)) [
    | inl e ↦ rw e (0, omega arith, R.zero-Within)
    | inr e ↦ rw e (
      64 + 0,
      omega arith,
      R.div-Within 64 0 (of_int a) (of_int b) (R.of_int-Within a 64 u (omega arith))
          (R.of_int-Above b (ne_zero b e) v) (omega arith),
    )
  ]

  mib-Within : (n : ℕ) → n < 2 ^ 64 → Within 64 (div (of_int n) (of_int 1048576))
  mib-Within n u =
      R.div-Within 64 0 (of_int n) (of_int 1048576) (R.of_int-Within n 64 u (omega arith))
        (R.of_int-Above 1048576 (ne_zero 1048576 refl) (omega arith)) (omega arith)

  -- For 64-bit numbers no ratio is more than 2^74, and so none is infinite or no number: the
  -- divisions by the time and by the size of the output are guarded against 0.
  pub ratios_bounded :
      (m : ProcessingMetrics)
      → IsU64 m
      → IsFinite (throughput_mib_per_sec R m)
        × IsFinite (rows_per_sec R m)
        × IsFinite (compression_ratio R m)
  unfolding throughput_mib_per_sec rows_per_sec compression_ratio
  ratios_bounded m u = (
    rate _ m.total_duration_ms (mib-Within m.input_bytes u.input) u.time,
    rate _ m.total_duration_ms (R.of_int-Within m.rows_processed 64 u.rows (omega arith)) u.time,
    ratio m.input_bytes m.output_bytes u.input u.output,
  )
