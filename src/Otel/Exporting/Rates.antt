-- ===== src/Otel/Exporting/Rates.antt =====
-- Which spans are kept at the sample rates of a configuration (config/o11y/o11y.go, o11y/otel/sampler.go
-- and o11y/otel/otel.go).
use native.Mathlib.Decide.{dec_lt}
use go_o11y.Prelude.{
  ℕ, suc, ◌-◌, ◌*◌, ◌/◌, ◌≤◌, ◌<◌, ◌≡◌, ◌↔◌, ◌⊎◌, inl, inr, arith, String, true, Option, none, some,
  [], ltb, if◌then◌else◌, put,
}
use go_o11y.Prelude.Int.{ℤ}
use go_o11y.Otel.Metrics.{text}
use go_o11y.Sampler.{max_uint32, should_keep}
use go_o11y.Otel.Exporting.{ExportConfig, EndedSpan, clamp_to_uint_max, fields_of}

clamped : Option ℤ → Option ℕ
clamped none = none
clamped (some v) = some (clamp_to_uint_max v)

-- A checksum is below the bound of a rate.
below-bound : (n r : ℕ) → 1 ≤ r → (n < max_uint32 / r) ↔ (suc n * r ≤ max_uint32)
below-bound n r h = (λ k. grind (arith, k, h), λ k. grind (arith, k, h))

kept :
    (checksum : String → ℕ) (d : String) (r : ℕ)
    → r ≤ max_uint32
    → should_keep checksum d r ≡ true ↔ ((r < 2) ⊎ (suc (checksum d) * r ≤ max_uint32))
unfolding should_keep
kept checksum d r h = elim (dec_lt r 2) [
  | yes y ↦ (λ k. inl y, λ k. ground (arith, y))
  | no n ↦
      let (there, back) = below-bound (checksum d) r (omega (arith, n)) in
      (
        λ k. inr (there (ground (arith, k, h, n))),
        λ k. elim k [ inl y ↦ absurd (n y) | inr le ↦ ground (arith, back le, h, n) ],
      )
]

-- The rate that the sampler has for a configured rate that is not negative.
abbrev pub rate_of : ℕ → ℕ
rate_of v = if ltb v max_uint32 then v else max_uint32 - 1

module _ {F : Type 0} (checksum : String → ℕ) (c : ExportConfig F) (p : EndedSpan F) where
  abbrev pub key_of : String
  key_of = c.sample_key_func (put "name" (text p.name) (fields_of p.attributes []))
