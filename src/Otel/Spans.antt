-- ===== src/Otel/Spans.antt =====
-- The spans of the OpenTelemetry provider (o11y/otel/otel.go). The store holds the spans, the fields of
-- each trace and the golden traces, by the number under which they were made; a pointer is such a number.
-- A span of the OpenTelemetry library is the list of the calls made on it. `none` is a panic.
pub mod Ending
pub mod Making
pub mod Copied
pub mod Completing
pub mod Ended
pub mod Flattened
pub mod Attributes
pub mod Doubled
pub mod Returns
pub mod GoldenSpans
pub mod Goldens
use Prim.Native.String.{◌++◌ as concat}
use go_o11y.Prelude.{
  ℕ, suc, String, Bool, true, false, Option, none, some, List, [], ◌∷◌, ◌++◌, is_some, ◌==◌,
  if◌then◌else◌, Dict, get, put, str_eq, contains,
}
use go_o11y.Prelude.Int.{ℤ}
use go_o11y.Prelude.Partial.{◌>>=◌}
use go_o11y.Errors.{Err}
use go_o11y.Span.{Metric, Tag, SpanKind, SpanConfig, internal}
use go_o11y.Otel.Metrics.{Any, MetricCall, text, flag, fault}

-- What the program takes from elsewhere: the conversion of an int64, the verbs %v and %d, the texts
-- of errors, and whether there is a metrics provider.
pub record Env (F : Type 0) : Type 0 where
  pub of_int : ℤ → F
  pub show : Any F → String
  pub tag_text : Tag → String
  pub decimal : ℕ → String
  pub error_text : Err → String
  pub has_provider : Bool

-- A call on a trace.Span, or its start with the parent and the kind, or that a span which was started
-- elsewhere is taken over.
pub data OtelCall (F : Type 0) : Type 0 where
  started : Option ℕ → SpanKind → OtelCall F
  taken_over : Option ℕ → OtelCall F
  set_name : String → OtelCall F
  set_attributes : String → Any F → OtelCall F
  add_link : ℕ → OtelCall F
  ended : OtelCall F

abbrev pub SpanOpt : Type 0
SpanOpt = SpanConfig → SpanConfig

-- span
pub record SpanState (F : Type 0) : Type 0 where
  pub tr : ℕ
  pub parent : Option ℕ
  pub flatten_prefix : String
  pub flatten_depth : ℕ
  pub golden : Option ℕ
  pub metrics : List Metric
  pub start : ℕ
  pub name : String
  pub opts : List SpanOpt
  pub fields : Dict (Any F)
  pub calls : List (OtelCall F)

-- What the provider puts into a context, with the OpenTelemetry span of it.
pub record Ctx : Type 0 where
  pub otel_span : Option ℕ
  pub span : Option ℕ
  pub golden : Option ℕ

pub record Golden : Type 0 where
  pub ctx : Ctx
  pub span : ℕ

pub record Store (F : Type 0) : Type 0 where
  pub spans : ℕ → SpanState F
  pub span_count : ℕ
  pub traces : ℕ → Dict (Any F)
  pub trace_count : ℕ
  pub goldens : ℕ → Golden
  pub golden_count : ℕ
  pub sent : List (MetricCall F)

-- An assignment at one number.
abbrev pub upd {ℓ} : {A : Type ℓ} → ℕ → A → (ℕ → A) → ℕ → A
upd i a f j = if j == i then a else f j

-- toOtelOpts
unfoldable pub kind_of : List SpanOpt → SpanConfig → SpanKind
kind_of [] cfg = elim cfg.kind [ none ↦ internal | some k ↦ k ]
kind_of (o ∷ os) cfg = kind_of os (o cfg)

module _ {F : Type 0} (env : Env F) where
  abbrev pub set_span : ℕ → SpanState F → Store F → Store F
  set_span i p s = record s { spans = upd i p s.spans }

  -- The value that AddRawField goes on with.
  unfoldable pub plain : Any F → Any F
  plain (fault e) = text (env.error_text e)
  plain v = v

  -- A new name, if the key is `name` and the value a text.
  unfoldable pub renamed : String → Any F → SpanState F → SpanState F
  renamed k (text t) p =
      if str_eq k "name" then record p { name = t; calls = p.calls ++ set_name t ∷ [] } else p
  renamed k v p = p

  -- AddRawField on the span; the value `none` is nil.
  unfoldable pub with_field : String → Any F → SpanState F → SpanState F
  unfolding plain renamed
  with_field k v p =
      let q = renamed k (plain v) (record p { fields = put k v p.fields }) in
      record q { calls = q.calls ++ set_attributes k (plain v) ∷ [] }

  unfoldable pub add_raw_field : String → Option (Any F) → ℕ → Store F → Option (Store F)
  unfolding with_field
  add_raw_field k none i s = some s
  add_raw_field k (some v) i s =
      if contains k "-" then none else some (set_span i (with_field k v (s.spans i)) s)

  -- AddField
  unfoldable pub add_field : String → Option (Any F) → ℕ → Store F → Option (Store F)
  unfolding add_raw_field
  add_field k v i s = add_raw_field (concat "app." k) v i s

  -- AddFieldToTrace, with the addField of tr.
  unfoldable pub add_field_to_trace : Ctx → String → Option (Any F) → Store F → Option (Store F)
  add_field_to_trace ctx k v s = elim ctx.span [
    | none ↦ some s
    | some i ↦ elim v [
      | none ↦ some s
      | some w ↦
          if contains k "-"
          then none
          else let t = (s.spans i).tr in
            some (record s { traces = upd t (put k w (s.traces t)) s.traces })
    ]
  ]

  -- RecordMetric
  unfoldable pub record_metric : Metric → ℕ → Store F → Store F
  record_metric m i s =
      let p = s.spans i in set_span i (record p { metrics = p.metrics ++ m ∷ [] }) s

  -- The depth that flatten counts from.
  unfoldable pub depth_of : Option ℕ → ℕ → Store F → ℕ
  depth_of none depth s = depth
  depth_of (some p) depth s = (s.spans p).flatten_depth

  -- flatten
  unfoldable pub flatten : String → ℕ → ℕ → Store F → Option (Store F)
  unfolding depth_of add_raw_field
  flatten prefix depth i s =
      let p = s.spans i in
      let d = suc (depth_of p.parent depth s) in
      let prefix' = if str_eq prefix "" then concat "l" (env.decimal d) else prefix in
      add_raw_field "flattened" (some (flag true)) i
        (set_span i (record p { flatten_depth = d; flatten_prefix = prefix' }) s)

  -- wrapSpan of a new span, from the call that starts it.
  unfoldable pub wrap_span :
      String → List SpanOpt → OtelCall F → Option ℕ → ℕ → Store F → Option (Store F)
  unfolding flatten
  wrap_span name opts started_by parent now s =
      let i = s.span_count in
      let p : SpanState F = record {
        tr = elim parent [ none ↦ s.trace_count | some q ↦ (s.spans q).tr ];
        parent = parent;
        flatten_prefix = "";
        flatten_depth = 0;
        golden = none;
        metrics = [];
        start = now;
        name = name;
        opts = opts;
        fields = [];
        calls = started_by ∷ [];
      } in
      let s1 = record (set_span i p s) { span_count = suc i } in
      elim parent [
        | none ↦
            some (record s1 {
              traces = upd s.trace_count [] s.traces;
              trace_count = suc s.trace_count;
            })
        | some q ↦ if str_eq (s.spans q).flatten_prefix "" then some s1 else flatten "" 0 i s1
      ]

  -- StartSpan; the new span is the one with the number `span_count`.
  unfoldable pub start_span : Ctx → String → List SpanOpt → ℕ → Store F → Option (Ctx × Store F)
  unfolding wrap_span kind_of
  start_span ctx name opts now s = do
    let i = s.span_count
    let by : OtelCall F = started ctx.otel_span (kind_of opts (record { kind = none }))
    t ← wrap_span name opts by ctx.span now s
    some (record { otel_span = some i; span = some i; golden = ctx.golden }, t)
