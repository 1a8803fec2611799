-- ===== src/Examples/Exporters.antt =====
-- Two exporters of which the second fails, and spans at a rate of 4 and at a negative one.
use go_o11y.Prelude.{
  ℕ, ◌≡◌, refl, String, true, false, Option, none, some, List, [], ◌∷◌, str_eq, if◌then◌else◌, Dict,
  get,
}
use go_o11y.Prelude.Int.{ℤ, pos, negsuc}
use go_o11y.Errors.{Err, ok}
use go_o11y.Errors as Errors
use go_o11y.Otel.Metrics.{int}
use go_o11y.Otel.Exporting.{
  Exporter, grpc, http, text_exporter, ExportConfig, EndedSpan, otel_sample_rates,
  clamp_to_uint_max, new_exporters, sample_spans, export_spans,
}
use go_o11y.Otel.Exporting.Exported.{exporters_of, Exports, export_spans-Exports}

abbrev rates : Dict ℤ
rates = ("job", pos 4) ∷ ("noise", negsuc 0) ∷ []

abbrev config : ExportConfig ℕ
config = record {
  dataset = "d";
  grpc_host_and_port = "host:1";
  http_traces_url = "";
  http_authorization = "";
  sample_traces = true;
  sample_key_func = λ fields. "job";
  sample_rates = otel_sample_rates rates;
  disable_text = false;
  test = true;
}

abbrev span_of : String → EndedSpan ℕ
span_of id = record { span_id = id; name = "n"; attributes = [] }

abbrev checksum : String → ℕ
checksum s = if str_eq s "low" then 1000 else 4000000000

sampled :
    sample_spans checksum config (span_of "low" ∷ span_of "high" ∷ [])
    ≡ record { span_id = "low"; name = "n"; attributes = ("SampleRate", int (pos 4)) ∷ [] } ∷ []
unfolding sample_spans otel_sample_rates get
sampled = refl

-- A rate of -1 becomes one of 2 ^ 64 - 1.
negative : clamp_to_uint_max (negsuc 0) ≡ 18446744073709551615
unfolding clamp_to_uint_max
negative = refl

abbrev no_fault : Exporter → Option Err
no_fault e = none

abbrev export : Exporter → List (EndedSpan ℕ) → Option Err
export (grpc endpoint headers) spans = none
export (http endpoint headers) spans = none
export (text_exporter colour) spans = some (Errors.text "closed")

export_spans-Exports_example :
    let es = grpc "host:1" ((("x-honeycomb-dataset", "d") ∷ []) ∷ []) ∷ text_exporter true ∷ [] in
    let spans = span_of "low" ∷ span_of "high" ∷ [] in
    (es ≡ exporters_of config)
    × Exports export
        (sample_spans checksum config spans)
        es
        (export_spans checksum config export es spans)
unfolding new_exporters
export_spans-Exports_example =
    export_spans-Exports checksum no_fault export config
      (grpc "host:1" ((("x-honeycomb-dataset", "d") ∷ []) ∷ []) ∷ text_exporter true ∷ [])
      (span_of "low" ∷ span_of "high" ∷ []) refl
