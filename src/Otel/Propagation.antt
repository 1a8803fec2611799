-- ===== src/Otel/Propagation.antt =====
-- The propagation of a trace to another service (o11y/otel/helpers.go), over Spans and Baggage. A span
-- of another service takes a number, and its state is not kept.
pub mod Across
use go_o11y.Prelude.{
  ℕ, suc, String, Bool, true, false, Option, none, some, List, [], ◌∷◌, ltb, or_else, if◌then◌else◌,
  Dict,
}
use go_o11y.Prelude.Int.{pos, pos_part}
use go_o11y.Prelude.Partial.{◌>>=◌}
use go_o11y.Baggage as Baggage
use go_o11y.Baggage.{BaggageContext, Header, add_extras_to_baggage, extras_from_baggage}
use go_o11y.Otel.Metrics.{flag}
use go_o11y.Otel.Spans.{
  Env, Store, Ctx, Golden, SpanOpt, taken_over, upd, add_raw_field, flatten, wrap_span, start_span,
}

-- A context with its baggage.
pub record PropagationState : Type 0 where
  pub spans : Ctx
  pub bag : BaggageContext

-- The spans, and the baggage in the context of each golden trace.
pub record Traces (F : Type 0) : Type 0 where
  pub store : Store F
  pub golden_bags : ℕ → Dict String

-- The text map propagator that New sets, which is OpenTelemetry's for the trace context and the
-- baggage: what Inject writes, and what Extract finds.
pub record Propagator : Type 0 where
  pub inject : Option ℕ → Dict String → Header
  pub baggage_in : Header → Option (Dict String)
  pub has_span : Header → Bool

-- Extract of the propagator: the baggage.
abbrev pub extract_baggage : Option (Dict String) → BaggageContext → BaggageContext
extract_baggage none b = b
extract_baggage (some d) b = record b { otel = d }

module _ (o : Baggage.Outside) (pr : Propagator) where
  module _ {F : Type 0} where
    abbrev pub depth_in : Option ℕ → Store F → ℕ
    depth_in none s = 0
    depth_in (some i) s = (s.spans i).flatten_depth

    abbrev pub golden_headers : Option ℕ → Traces F → Header
    golden_headers none t = []
    golden_headers (some g) t = pr.inject (t.store.goldens g).ctx.otel_span (t.golden_bags g)

    -- The context of ExtractPropagation with its extras.
    unfoldable pub with_extras : PropagationState → Traces F → BaggageContext
    unfolding add_extras_to_baggage
    with_extras ctx t =
        add_extras_to_baggage o (pos (depth_in ctx.spans.span t.store))
          (golden_headers ctx.spans.golden t) ctx.bag

    -- ExtractPropagation, with the option that disables it.
    unfoldable pub extract_propagation : Bool → PropagationState → Traces F → Header
    unfolding with_extras
    extract_propagation true ctx t = []
    extract_propagation false ctx t = pr.inject ctx.spans.otel_span (with_extras ctx t).otel

    -- Extract of the propagator: the trace context, with a number for its span.
    unfoldable pub extract_span : Header → Ctx → Store F → Ctx × Store F
    extract_span h c s =
        if pr.has_span h
        then (
          record c { otel_span = some s.span_count },
          record s { span_count = suc s.span_count },
        )
        else (c, s)

  module _ {F : Type 0} (env : Env F) where
    -- The part of InjectPropagation that makes the golden trace, if there are headers of one.
    unfoldable pub take_golden :
        List SpanOpt
        → ℕ
        → Header
        → PropagationState
        → Traces F
        → Option (PropagationState × Traces F)
    unfolding extract_span wrap_span add_raw_field
    take_golden opts now [] ctx t = some (ctx, t)
    take_golden opts now (h ∷ gold) ctx t = do
      let (c, s) = extract_span (h ∷ gold) ctx.spans t.store
      let b = extract_baggage (pr.baggage_in (h ∷ gold)) ctx.bag
      let i = s.span_count
      s1 ← wrap_span env "" opts (taken_over c.otel_span) none now s
      s2 ← add_raw_field env "meta.golden" (some (flag true)) i s1
      let g = s2.golden_count
      let spec : Golden = record { ctx = c; span = i }
      some (
        record ctx { spans = record ctx.spans { golden = some g } },
        record {
          store = record s2 { goldens = upd g spec s2.goldens; golden_count = suc g };
          golden_bags = upd g b.otel t.golden_bags;
        },
      )

    -- The part after the span was started.
    unfoldable pub take_extras :
        List SpanOpt → ℕ → ℕ → PropagationState → Traces F → Option (PropagationState × Traces F)
    unfolding flatten extras_from_baggage take_golden
    take_extras opts now j ctx t = do
      let (fd, gold) = extras_from_baggage o ctx.bag
      let depth = pos_part fd
      s ← if ltb 0 depth then flatten env "" depth j t.store else some t.store
      take_golden opts now gold ctx (record t { store = s })

    -- InjectPropagation, with the option that disables it.
    unfoldable pub inject_propagation :
        Bool
        → PropagationState
        → Header
        → List SpanOpt
        → ℕ
        → Traces F
        → Option (PropagationState × Traces F)
    unfolding start_span take_extras extract_span
    inject_propagation true ctx h opts now t = do
      (c, s) ← start_span env ctx.spans "root" opts now t.store
      some (record ctx { spans = c }, record t { store = s })
    inject_propagation false ctx h opts now t = do
      let (c0, s0) = extract_span h ctx.spans t.store
      let b = extract_baggage (pr.baggage_in h) ctx.bag
      (c, s) ← start_span env c0 "root" opts now s0
      take_extras opts now s0.span_count (record { spans = c; bag = b }) (record t { store = s })
