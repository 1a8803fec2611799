-- ===== src/Otel/Spans/Completing.antt =====
-- The first part of End: the duration, the trace's fields and the metrics (o11y/otel/otel.go).
use mathlib.Core.Path.{subst}
use Prim.Native.String.{◌++◌ as concat}
use go_o11y.Prelude.{
  put_all, ◌≡◌, refl, ap, sym, ◌∙◌, ℕ, Bool, true, false, Option, some, List, [], ◌++◌, ◌==◌,
  if◌then◌else◌, Dict, put, append-nil,
}
use go_o11y.Prelude.Partial.{◌>>=◌, bind-some, some_inj}
use go_o11y.HttpClient.Metrics.{between, to_millis}
use go_o11y.Otel.Metrics.{Any, int, MetricCall, extract_and_send_metrics}
use go_o11y.Span.{Metric}
use go_o11y.Otel.Spans.{Env, Store, SpanState}
use go_o11y.Otel.Spans.Ending.{add_fields, send_metric, with_duration, complete}
use go_o11y.Otel.Spans.Copied.{Kept, Filled, Filled-trans, put_span-Filled, add_fields-Filled}

module _ {F : Type 0} (env : Env F) where
  -- The fields that a span has when it ends.
  abbrev pub final_fields : ℕ → Store F → SpanState F → Dict (Any F)
  final_fields now s p =
      put_all (concat "app.") (s.traces p.tr)
        (put "duration_ms" (int (to_millis (between now p.start))) p.fields)

  with_duration-Filled :
      (now i : ℕ) (s : Store F)
      → Filled F i
          (put "duration_ms" (int (to_millis (between now (s.spans i).start))) (s.spans i).fields)
          s
          (with_duration env now i s)
  unfolding with_duration
  with_duration-Filled now i s =
      let p = s.spans i in
      put_span-Filled env i
        (record p { fields = put "duration_ms" (int (to_millis (between now p.start))) p.fields }) s
        (record {
          tr = refl;
          parent = refl;
          flatten_prefix = refl;
          golden = refl;
          metrics = refl;
          start = refl;
          ends = refl;
        })

  -- The calls for a span's metrics.
  abbrev pub calls_of : List Metric → Dict (Any F) → Option (List (MetricCall F))
  calls_of = extract_and_send_metrics env.of_int env.show env.tag_text

  send_metric-sent :
      (i : ℕ) (s t : Store F)
      → send_metric env i s ≡ some t
      → (t.spans ≡ s.spans)
        × (t.traces ≡ s.traces)
        × (calls : List (MetricCall F)) × (t.sent ≡ s.sent ++ calls)
        × (env.has_provider ≡ true → calls_of (s.spans i).metrics (s.spans i).fields ≡ some calls)
  unfolding send_metric
  send_metric-sent i s t e = go env.has_provider e
    where
      calls : Option (List (MetricCall F))
      calls = calls_of (s.spans i).metrics (s.spans i).fields

      go :
          (b : Bool)
          → (if b then calls >>= (λ cs. some (record s { sent = s.sent ++ cs })) else some s)
            ≡ some t
          → (t.spans ≡ s.spans)
            × (t.traces ≡ s.traces)
            × (cs : List (MetricCall F)) × (t.sent ≡ s.sent ++ cs)
            × (b ≡ true → calls ≡ some cs)
      go true q =
          let (cs, h, f) = bind-some calls (λ cs. some (record s { sent = s.sent ++ cs })) t q in
          (
            ap (λ u. u.spans) (sym (some_inj f)),
            ap (λ u. u.traces) (sym (some_inj f)),
            cs,
            ap (λ u. u.sent) (sym (some_inj f)),
            λ x. h,
          )
      go false q = (
        ap (λ u. u.spans) (sym (some_inj q)),
        ap (λ u. u.traces) (sym (some_inj q)),
        [],
        ap (λ u. u.sent) (sym (some_inj q)) ∙ sym (append-nil s.sent),
        λ x. cc,
      )

  -- What `complete` does.
  pub record Completed (now i : ℕ) (s t : Store F) : Type 0 where
    pub fields : (t.spans i).fields ≡ final_fields now s (s.spans i)
    pub kept : Kept F (s.spans i) (t.spans i)
    pub others : (j : ℕ) → (j == i) ≡ false → t.spans j ≡ s.spans j
    pub traces : t.traces ≡ s.traces
    pub sent :
        (calls : List (MetricCall F)) × (t.sent ≡ s.sent ++ calls)
        × (env.has_provider ≡ true
            → calls_of (s.spans i).metrics (final_fields now s (s.spans i)) ≡ some calls)

  pub trace_at :
      (now i : ℕ) (s : Store F)
      → (with_duration env now i s).traces ((with_duration env now i s).spans i).tr
        ≡ s.traces (s.spans i).tr
  trace_at now i s =
      let a = with_duration-Filled now i s in
      ap (λ n. (with_duration env now i s).traces n) a.kept.tr ∙ ap (λ x. x (s.spans i).tr) a.traces

  -- The span when the fields of its trace are added.
  pub filled_by :
      (now i : ℕ) (s t : Store F)
      → let s1 = with_duration env now i s in
        add_fields env (concat "app.") (s1.traces (s1.spans i).tr) i s1 ≡ some t
        → ((t.spans i).fields ≡ final_fields now s (s.spans i))
          × ((t.spans i).metrics ≡ (s.spans i).metrics)
  filled_by now i s t h =
      let s1 = with_duration env now i s in
      let a = with_duration-Filled now i s in
      let b = add_fields-Filled env (concat "app.") (s1.traces (s1.spans i).tr) i s1 t h in
      (
        b.fields
            ∙ ap (λ x. put_all (concat "app.") x (s1.spans i).fields) (trace_at now i s)
            ∙ ap (put_all (concat "app.") (s.traces (s.spans i).tr)) a.fields,
        b.kept.metrics ∙ a.kept.metrics,
      )

  pub complete-Completed :
      (now i : ℕ) (s t : Store F) → complete env now i s ≡ some t → Completed now i s t
  unfolding complete
  complete-Completed now i s t e =
      let s1 = with_duration env now i s in
      let a = with_duration-Filled now i s in
      let (s2, h, f) =
        bind-some (add_fields env (concat "app.") (s1.traces (s1.spans i).tr) i s1)
          (send_metric env i) t e in
      let b = add_fields-Filled env (concat "app.") (s1.traces (s1.spans i).tr) i s1 s2 h in
      let c = send_metric-sent i s2 t f in
      let m =
        put "duration_ms" (int (to_millis (between now (s.spans i).start))) (s.spans i).fields in
      let d =
        Filled-trans env i m
          (put_all (concat "app.") (s1.traces (s1.spans i).tr) (s1.spans i).fields) s s1 s2 a b in
      let filled = filled_by now i s s2 h in
      record {
        fields = ap (λ x. (x i).fields) c.0 ∙ filled.0;
        kept = subst (λ x. Kept F (s.spans i) (x i)) (sym c.0) d.kept;
        others = λ j q. ap (λ x. x j) c.0 ∙ d.others j q;
        traces = c.1 ∙ d.traces;
        sent = (
          c.2,
          c.3 ∙ ap (λ x. x ++ c.2) d.sent,
          λ q.
              ap (λ x. calls_of x (final_fields now s (s.spans i))) (sym filled.1)
              ∙ ap (calls_of (s2.spans i).metrics) (sym filled.0)
              ∙ c.4 q,
        );
      }
