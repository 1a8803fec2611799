-- ===== src/Otel/Spans/Making.antt =====
-- Golden traces: startGoldenTrace, MakeSpanGolden and link of o11y/otel/otel.go.
use go_o11y.Prelude.{ℕ, suc, String, true, Option, none, some, [], ◌∷◌, ◌++◌}
use go_o11y.Prelude.Partial.{◌>>=◌}
use go_o11y.Span.{internal}
use go_o11y.Otel.Metrics.{flag}
use go_o11y.Otel.Spans.{
  Env, Store, Ctx, Golden, started, add_link, upd, set_span, add_raw_field, wrap_span, start_span,
}

module _ {F : Type 0} (env : Env F) where
  -- startGoldenTrace, of a context without a golden trace: the golden trace has the number
  -- `golden_count`.
  unfoldable pub start_golden_trace : Ctx → String → ℕ → Store F → Option (Ctx × Store F)
  unfolding wrap_span add_raw_field
  start_golden_trace ctx name now s = elim ctx.golden [
    | some g ↦ some (ctx, s)
    | none ↦ (do
      let i = s.span_count
      let g = s.golden_count
      s1 ← wrap_span env name [] (started none internal) none now s
      s2 ← add_raw_field env "meta.golden" (some (flag true)) i s1
      let spec : Golden = record {
        ctx = record { otel_span = some i; span = none; golden = none };
        span = i;
      }
      some (
        record ctx { golden = some g },
        record s2 { goldens = upd g spec s2.goldens; golden_count = suc g },
      ))
  ]

  -- link
  unfoldable pub link : ℕ → ℕ → Store F → Store F
  link i j s =
      let p = s.spans i in
      let s1 = set_span env i (record p { calls = p.calls ++ add_link j ∷ [] }) s in
      let q = s1.spans j in set_span env j (record q { calls = q.calls ++ add_link i ∷ [] }) s1

  -- What MakeSpanGolden does with the golden trace `g` to the span `i`.
  unfoldable pub make_golden : ℕ → ℕ → ℕ → Store F → Option (Store F)
  unfolding start_span add_raw_field link
  make_golden g i now s = do
    let sp = s.spans i
    let spec = s.goldens g
    (c, s1) ← start_span env spec.ctx sp.name sp.opts now s
    let j = s.span_count
    let s2 = record s1 { goldens = upd g (record spec { ctx = c }) s1.goldens }
    let p = s2.spans i
    s3 ←
        add_raw_field env "meta.golden" (some (flag true)) j
          (set_span env i (record p { golden = c.span }) s2)
    some (link i j s3)

  -- MakeSpanGolden
  unfoldable pub make_span_golden : Ctx → ℕ → Store F → Option (Ctx × Store F)
  unfolding start_golden_trace make_golden
  make_span_golden ctx now s = elim ctx.span [
    | none ↦ some (ctx, s)
    | some i ↦ (do
      (c, s1) ← start_golden_trace ctx "root" now s
      elim c.golden [ none ↦ none | some g ↦ (do s2 ← make_golden g i now s1; some (c, s2)) ])
  ]
