-- ===== src/Sampler.antt =====
-- The two deterministic samplers (o11y/otel/sampler.go, o11y/honeycomb/sampler.go). `checksum` is
-- crc32.ChecksumIEEE of the text, a number below 2 ^ 32.
pub mod Nested
use go_o11y.Prelude.{
  ℕ, String, Bool, true, false, Option, none, some, ◌/◌, ◌%◌, ◌-◌, ◌==◌, ltb, if◌then◌else◌, Dict,
  get,
}
use go_o11y.Prelude.Int.{ℤ, pos, negsuc, eqb_ℤ}

abbrev pub max_uint32 : ℕ
max_uint32 = 4294967295

-- shouldKeep of package otel. `rate` is a uint of 64 bits.
unfoldable pub should_keep : (String → ℕ) → String → ℕ → Bool
should_keep checksum determinant rate =
    if ltb rate 2
    then true
    else let r = if ltb max_uint32 rate then max_uint32 else rate in
      ltb (checksum determinant) (max_uint32 / r)

-- deterministicSampler.shouldSample: the rate of the span's key, or none.
unfoldable pub should_sample_span : (String → ℕ) → Dict ℕ → String → String → Bool × ℕ
unfolding should_keep
should_sample_span checksum rates key span_id = elim (get key rates) [
  | none ↦ (true, 1)
  | some rate ↦ (should_keep checksum span_id rate, rate)
]

-- uint32(rate)
abbrev pub to_uint32 : ℤ → ℕ
to_uint32 (pos n) = n % 4294967296
to_uint32 (negsuc n) = max_uint32 - n % 4294967296

-- shouldSample of package honeycomb. `none` is the panic of a division by zero: the rate is cut to 32
-- bits before the division.
unfoldable pub should_sample : (String → ℕ) → String → ℤ → Option Bool
should_sample checksum determinant rate =
    if eqb_ℤ rate (pos 1)
    then some true
    else let r = to_uint32 rate in
      if r == 0 then none else some (ltb (checksum determinant) (max_uint32 / r))

-- TraceSampler.Hook, of the rate that the sampler gives for the key: the decision and the rate.
unfoldable pub hook : (String → ℕ) → String → ℤ → Option (Bool × ℤ)
unfolding should_sample
hook checksum trace_id rate = elim (should_sample checksum trace_id rate) [
  | none ↦ none
  | some kept ↦ some (if kept then (true, rate) else (false, pos 0))
]
