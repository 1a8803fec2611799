-- ===== src/Otel/Exporting.antt =====
-- The exporters of the OpenTelemetry provider, the sampling of what they are sent (o11y/otel/otel.go,
-- o11y/otel/sampler.go, o11y/otel/custom.go), and the sample rates of the configuration
-- (config/o11y/o11y.go).
pub mod Rates
pub mod Exported
use Prim.Native.String.{◌++◌ as concat}
use go_o11y.Prelude.{
  ℕ, suc, ◌-◌, ◌^◌, ◌≤◌, String, Bool, true, false, not, ◌||◌, Option, none, some, List, [], ◌∷◌,
  ◌++◌, str_eq, is_some, contains, ltb, leb, if◌then◌else◌, Dict, get, put,
}
use go_o11y.Prelude.Int.{ℤ, pos, negsuc}
use go_o11y.Errors.{Err, Result, ok, err}
use go_o11y.Otel.Metrics.{Any, int, text}
use go_o11y.Sampler.{max_uint32, should_sample_span}

-- clampToUintMax, with the conversion of an int of 64 bits to a uint.
unfoldable pub clamp_to_uint_max : ℤ → ℕ
clamp_to_uint_max (pos n) = if leb max_uint32 n then max_uint32 - 1 else n
clamp_to_uint_max (negsuc n) = 2 ^ 64 - suc n

-- OtelSampleRates
unfoldable pub otel_sample_rates : Dict ℤ → Dict ℕ
unfolding clamp_to_uint_max
otel_sample_rates [] = []
otel_sample_rates ((k, v) ∷ rates) = (k, clamp_to_uint_max v) ∷ otel_sample_rates rates

-- The conversion of a uint of 64 bits to an int.
unfoldable pub int_of_uint : ℕ → ℤ
int_of_uint n = if ltb n (2 ^ 63) then pos n else negsuc (2 ^ 64 - suc n)

-- A ReadOnlySpan.
pub record EndedSpan (F : Type 0) : Type 0 where
  pub span_id : String
  pub name : String
  pub attributes : List (String × Any F)

-- The exporters that New makes: the options of the first two are their endpoint and their headers,
-- those of the text exporter its colour.
pub data Exporter : Type 0 where
  grpc : String → List (Dict String) → Exporter
  http : String → List (Dict String) → Exporter
  text_exporter : Bool → Exporter

-- The parts of Config that decide on the exporters and the sampling.
pub record ExportConfig (F : Type 0) : Type 0 where
  pub dataset : String
  pub grpc_host_and_port : String
  pub http_traces_url : String
  pub http_authorization : String
  pub sample_traces : Bool
  pub sample_key_func : Dict (Any F) → String
  pub sample_rates : Dict ℕ
  pub disable_text : Bool
  pub test : Bool

unfoldable pub new_grpc : String → String → Exporter
new_grpc endpoint dataset = grpc endpoint ((("x-honeycomb-dataset", dataset) ∷ []) ∷ [])

unfoldable pub new_http : String → String → String → Exporter
new_http endpoint dataset token = http endpoint (
    (("x-honeycomb-dataset", dataset) ∷ [])
    ∷ (if not (str_eq token "") then (("Authorization", concat "Bearer " token) ∷ []) ∷ [] else []))

-- An exporter is made, or the error of making it ends New.
unfoldable pub or_failed :
    (Exporter → Option Err) → Exporter → Result (List Exporter) → Result (List Exporter)
or_failed fault e rest = elim (fault e) [
  | some f ↦ err f
  | none ↦ elim rest [ err f ↦ err f | ok es ↦ ok (e ∷ es) ]
]

-- Shutdown: the exporters that are called, and the first error.
unfoldable pub shutdown_each : (Exporter → Option Err) → List Exporter → List Exporter × Option Err
shutdown_each shutdown [] = ([], none)
shutdown_each shutdown (e ∷ es) =
    let rest = shutdown_each shutdown es in
    elim (shutdown e) [ some f ↦ (e ∷ [], some f) | none ↦ (e ∷ rest.0, rest.1) ]

module _ {F : Type 0} where
  -- The text exporter, after the given number of others.
  unfoldable pub text_exporters :
      (Exporter → Option Err) → ExportConfig F → Bool → Result (List Exporter)
  unfolding or_failed
  text_exporters fault c none_yet =
      if not c.disable_text || none_yet
      then or_failed fault (text_exporter c.test) (ok [])
      else ok []

  unfoldable pub http_exporters :
      (Exporter → Option Err) → ExportConfig F → Bool → Result (List Exporter)
  unfolding or_failed new_http text_exporters
  http_exporters fault c none_yet =
      if not (str_eq c.http_traces_url "")
      then or_failed fault (new_http c.http_traces_url c.dataset c.http_authorization)
          (text_exporters fault c false)
      else text_exporters fault c none_yet

  -- The exporters of New, in order, where `fault` says which of them cannot be made.
  unfoldable pub new_exporters : (Exporter → Option Err) → ExportConfig F → Result (List Exporter)
  unfolding or_failed new_grpc http_exporters
  new_exporters fault c =
      if not (str_eq c.grpc_host_and_port "")
      then or_failed fault (new_grpc c.grpc_host_and_port c.dataset) (http_exporters fault c false)
      else http_exporters fault c true

  -- The fields that shouldSample gives to sampleKeyFunc.
  unfoldable pub fields_of : List (String × Any F) → Dict (Any F) → Dict (Any F)
  fields_of [] fields = fields
  fields_of ((k, v) ∷ attributes) fields = fields_of attributes (put k v fields)

  -- shouldSample of the sampler that New makes, if it makes one.
  unfoldable pub should_sample : (String → ℕ) → ExportConfig F → EndedSpan F → Bool × ℕ
  unfolding fields_of should_sample_span
  should_sample checksum c p =
      should_sample_span checksum c.sample_rates
        (c.sample_key_func (put "name" (text p.name) (fields_of p.attributes []))) p.span_id

  -- Attributes of a sampleRateSpan.
  unfoldable pub with_rate : ℕ → EndedSpan F → EndedSpan F
  unfolding int_of_uint
  with_rate rate p = record p {
    attributes = p.attributes ++ ("SampleRate", int (int_of_uint rate)) ∷ [];
  }

  unfoldable pub sample_each :
      (String → ℕ) → ExportConfig F → List (EndedSpan F) → List (EndedSpan F)
  unfolding should_sample with_rate
  sample_each checksum c [] = []
  sample_each checksum c (p ∷ spans) =
      let (kept, rate) = should_sample checksum c p in
      let rest = sample_each checksum c spans in if kept then with_rate rate p ∷ rest else rest

  -- sampleSpans
  unfoldable pub sample_spans :
      (String → ℕ) → ExportConfig F → List (EndedSpan F) → List (EndedSpan F)
  unfolding sample_each
  sample_spans checksum c spans = if c.sample_traces then sample_each checksum c spans else spans

  -- The loop of ExportSpans: the exporters that are called, and the error of the first that fails.
  unfoldable pub export_each :
      (Exporter → List (EndedSpan F) → Option Err)
      → List Exporter
      → List (EndedSpan F)
      → List (Exporter × List (EndedSpan F)) × Option Err
  export_each export [] spans = ([], none)
  export_each export (e ∷ es) spans =
      let rest = export_each export es spans in
      elim (export e spans) [
        | some f ↦ ((e, spans) ∷ [], some f)
        | none ↦ ((e, spans) ∷ rest.0, rest.1)
      ]

  -- ExportSpans
  unfoldable pub export_spans :
      (String → ℕ)
      → ExportConfig F
      → (Exporter → List (EndedSpan F) → Option Err)
      → List Exporter
      → List (EndedSpan F)
      → List (Exporter × List (EndedSpan F)) × Option Err
  unfolding sample_spans export_each
  export_spans checksum c export es spans = export_each export es (sample_spans checksum c spans)

  -- The global fields: addField of Annotator after AddGlobalField has looked at the key, where `none`
  -- is its panic, and OnStart.
  unfoldable pub add_global_field :
      String → Any F → List (String × Any F) → Option (List (String × Any F))
  add_global_field key value attrs =
      if contains key "-" then none else some (attrs ++ (key, value) ∷ [])

  unfoldable pub on_start : List (String × Any F) → EndedSpan F → EndedSpan F
  unfolding fields_of
  on_start attrs p = record p { attributes = fields_of attrs p.attributes }
