-- ===== src/Sampler/Nested.antt =====
-- How the samplers' decisions depend on the rate (o11y/otel/sampler.go, o11y/honeycomb/sampler.go).
use go_o11y.Prelude.{◌≡◌, arith, ℕ, suc, ◌≤◌, ◌%◌, String, none, some}
use go_o11y.Prelude.Int.{pos, negsuc}
use go_o11y.Sampler.{should_keep, should_sample, max_uint32}

-- The two samplers agree at every rate from 1 to 2 ^ 32 - 1; the one for honeycomb panics exactly at
-- the multiples of 2 ^ 32, zero and negative ones among them, where the other keeps or drops.
pub should_sample-should_keep :
    (checksum : String → ℕ) (d : String) (rate below : ℕ)
    → (1 ≤ rate
        → rate ≤ max_uint32
        → should_sample checksum d (pos rate) ≡ some (should_keep checksum d rate))
      × (should_sample checksum d (pos rate) ≡ none → rate % 4294967296 ≡ 0)
      × (rate % 4294967296 ≡ 0 → should_sample checksum d (pos rate) ≡ none)
      × (should_sample checksum d (negsuc below) ≡ none → suc below % 4294967296 ≡ 0)
      × (suc below % 4294967296 ≡ 0 → should_sample checksum d (negsuc below) ≡ none)
unfolding should_sample should_keep
should_sample-should_keep checksum d rate below = (
  λ h k. ground arith,
  λ h. ground arith,
  λ h. ground arith,
  λ h. ground arith,
  λ h. ground arith,
)
