-- ===== src/Examples/Metrics.antt =====
-- Metrics over HTTP, the samplers and the DNS cache, at concrete inputs.
use go_o11y.Prelude.{◌≡◌, refl, arith, ℕ, ◌%◌, ◌≤◌, String, Option, none, some, List, [], ◌∷◌}
use go_o11y.Errors.{Err, text}
use go_o11y.HttpMetrics.{
  Provider, MetricData, create_provider, record_metric, send_batch, take_data,
}
use go_o11y.HttpMetrics.Conserved.{
  Publishers, records, takes, sends, here, next, Conserved, Run-Conserved,
}
use go_o11y.Prelude.Int.{pos, negsuc}
use go_o11y.Sampler.{should_keep, should_sample, max_uint32}
use go_o11y.Sampler.Nested.{should_sample-should_keep}

abbrev provider : Provider ℕ
provider = create_provider (record {
  url = "http://metrics";
  auth_token = "";
  global_tags = [];
  client_name = "";
  publish_interval = 0;
  namespace = "";
})

abbrev recorded : Provider ℕ
recorded = record_metric "gauge" "depth" 3 [] 100 provider

abbrev failing : List (MetricData ℕ) → Option Err
failing batch = some (text "unavailable")

abbrev depth : MetricData ℕ
depth = record { type = "gauge"; name = "depth"; timestamp = 100; value = 3; tags = [] }

abbrev start : Publishers ℕ
start = record { provider = provider; sending = []; delivered = []; recorded = [] }

-- A metric is recorded, taken, and comes back after the call fails.
abbrev ended : Publishers ℕ
ended = record start {
  provider = send_batch failing (depth ∷ []) (take_data recorded).1;
  recorded = depth ∷ [];
}

Run-Conserved_example : Conserved ended
unfolding create_provider record_metric take_data
Run-Conserved_example =
    Run-Conserved {s = start}
      (next (next (next here (records "gauge" "depth" 3 [] 100)) takes)
        (sends [] [] (depth ∷ []) (some (text "unavailable")) refl))
      (λ w. omega arith)

abbrev checksum : String → ℕ
checksum t = 1000

should_sample-should_keep_example :
    (1 ≤ 10
      → 10 ≤ max_uint32
      → should_sample checksum "span" (pos 10) ≡ some (should_keep checksum "span" 10))
    × (should_sample checksum "span" (pos 10) ≡ none → 10 % 4294967296 ≡ 0)
    × (10 % 4294967296 ≡ 0 → should_sample checksum "span" (pos 10) ≡ none)
    × (should_sample checksum "span" (negsuc 4294967295) ≡ none → 4294967296 % 4294967296 ≡ 0)
    × (4294967296 % 4294967296 ≡ 0 → should_sample checksum "span" (negsuc 4294967295) ≡ none)
should_sample-should_keep_example = should_sample-should_keep checksum "span" 10 4294967295
