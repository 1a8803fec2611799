-- ===== src/Otel/Spans/Ending.antt =====
-- End, copyAttrsFrom and sendMetric of o11y/otel/otel.go.
use Prim.Native.String.{◌++◌ as concat}
use go_o11y.Prelude.{
  ℕ, zero, suc, String, Option, none, some, [], ◌∷◌, ◌++◌, ◌||◌, if◌then◌else◌, Dict, put, str_eq,
}
use go_o11y.Prelude.Partial.{◌>>=◌}
use go_o11y.HttpClient.Metrics.{between, to_millis}
use go_o11y.Otel.Metrics.{Any, int, extract_and_send_metrics}
use go_o11y.Otel.Spans.{
  Env, Store, SpanState, ended, set_name, set_attributes, set_span, add_raw_field,
}

module _ {F : Type 0} (env : Env F) where
  -- A loop of AddRawField over fields, whose keys are changed by `key`.
  unfoldable pub add_fields : (String → String) → Dict (Any F) → ℕ → Store F → Option (Store F)
  unfolding add_raw_field
  add_fields key [] i s = some s
  add_fields key ((k, v) ∷ kvs) i s =
      add_raw_field env (key k) (some v) i s >>= add_fields key kvs i

  -- sendMetric
  unfoldable pub send_metric : ℕ → Store F → Option (Store F)
  unfolding extract_and_send_metrics
  send_metric i s =
      if env.has_provider
      then (do
        let p = s.spans i
        calls ← extract_and_send_metrics env.of_int env.show env.tag_text p.metrics p.fields
        some (record s { sent = s.sent ++ calls }))
      else some s

  -- The beginning of End: the duration and the fields of the trace, and the metrics.
  unfoldable pub with_duration : ℕ → ℕ → Store F → Store F
  unfolding between to_millis
  with_duration now i s =
      let p = s.spans i in
      set_span env i
        (record p { fields = put "duration_ms" (int (to_millis (between now p.start))) p.fields }) s

  unfoldable pub complete : ℕ → ℕ → Store F → Option (Store F)
  unfolding with_duration add_fields send_metric
  complete now i s = do
    let s1 = with_duration now i s
    s2 ← add_fields (concat "app.") (s1.traces (s1.spans i).tr) i s1
    send_metric i s2

  -- A flattened span's fields go to its parent.
  unfoldable pub pass_up : ℕ → Store F → Option (Store F)
  unfolding add_fields
  pass_up i s =
      let p = s.spans i in
      elim p.parent [
        | none ↦ some s
        | some q ↦ add_fields (λ k. concat p.flatten_prefix (concat "." k)) p.fields q s
      ]

  -- The loop of copyAttrsFrom, on the span that gets the fields.
  unfoldable pub copy_fields : Dict (Any F) → SpanState F → SpanState F
  copy_fields [] p = p
  copy_fields ((k, v) ∷ kvs) p = copy_fields kvs (
      if str_eq k "name" || str_eq k "duration_ms"
      then p
      else record p { fields = put k v p.fields; calls = p.calls ++ set_attributes k v ∷ [] })

  -- copyAttrsFrom, whose name is the receiver's own.
  unfoldable pub copy_attrs_from : ℕ → ℕ → Store F → Store F
  unfolding copy_fields
  copy_attrs_from g i s =
      let p = s.spans g in
      set_span env g
        (copy_fields (s.spans i).fields (record p { calls = p.calls ++ set_name p.name ∷ [] })) s

  -- The end of the OpenTelemetry span.
  unfoldable pub end_otel : ℕ → Store F → Store F
  end_otel i s = let p = s.spans i in set_span env i (record p { calls = p.calls ++ ended ∷ [] }) s

  -- The end of the golden span, if there is one; `next` is End.
  unfoldable pub end_golden : (ℕ → Store F → Option (Store F)) → ℕ → Store F → Option (Store F)
  unfolding copy_attrs_from
  end_golden next i s = elim (s.spans i).golden [
    | none ↦ some s
    | some g ↦ next g (copy_attrs_from g i s)
  ]

  -- End. The fuel bounds how many golden spans follow one another; without fuel it is `none`.
  unfoldable pub end_span : ℕ → ℕ → ℕ → Store F → Option (Store F)
  unfolding complete pass_up end_otel end_golden
  end_span zero now i s = none
  end_span (suc fuel) now i s = complete now i s >>= λ s1.
      if str_eq (s1.spans i).flatten_prefix ""
      then end_golden (end_span fuel now) i (end_otel i s1)
      else pass_up i s1
