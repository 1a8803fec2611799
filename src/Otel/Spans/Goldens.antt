-- ===== src/Otel/Spans/Goldens.antt =====
-- What MakeSpanGolden makes (o11y/otel/otel.go).
use mathlib.Core.Path.{subst}
use go_o11y.Prelude.{
  ◌≡◌, refl, ap, sym, ◌∙◌, arith, ℕ, suc, ◌<◌, true, Option, none, some, [], contains,
}
use go_o11y.Prelude.Partial.{◌>>=◌, bind-some, some_inj}
use go_o11y.Otel.Metrics.{flag}
use go_o11y.Otel.Spans.{
  Env, Store, Ctx, Golden, upd, kind_of, set_span, wrap_span, add_raw_field, with_field,
}
use go_o11y.Otel.Spans.Making.{start_golden_trace, make_golden, make_span_golden}
use go_o11y.Otel.Spans.GoldenSpans.{alone, with_root, upd_at, make_golden-fresh}

module _ {F : Type 0} (env : Env F) where
  -- The store with the root of a golden trace.
  abbrev rooted : ℕ → Store F → Store F
  rooted now s =
      let r = s.span_count in
      let root =
        with_root env
          (alone env (record (s.spans r) { name = "root"; opts = [] }) none s.trace_count now) s in
      let t = set_span env r (with_field env "meta.golden" (flag true) (root.spans r)) root in
      record t {
        goldens =
            upd s.golden_count
              (record { ctx = record { otel_span = some r; span = none; golden = none }; span = r })
              t.goldens;
        golden_count = suc s.golden_count;
      }

  start_golden_trace-new :
      (otel span : Option ℕ) (now : ℕ) (s : Store F)
      → start_golden_trace env
          (record { otel_span = otel; span = span; golden = none })
          "root"
          now
          s
        ≡ some
            (record { otel_span = otel; span = span; golden = some s.golden_count }, rooted now s)
  unfolding start_golden_trace wrap_span add_raw_field contains kind_of
  start_golden_trace-new otel span now s = refl

  -- MakeSpanGolden of a span in a context without a golden trace: the context gets a new golden
  -- trace, and what is made is as the end of a span with a golden span asks for it: the golden span
  -- is new and the span's, it is neither flattened nor golden itself, and its trace has no fields.
  pub make_span_golden-fresh :
      (otel : Option ℕ) (now i : ℕ) (s : Store F) (c : Ctx) (t : Store F)
      → i < s.span_count
      → make_span_golden env (record { otel_span = otel; span = some i; golden = none }) now s
        ≡ some (c, t)
      → (c.golden ≡ some s.golden_count)
        × ((t.spans i).golden ≡ some (suc s.span_count))
        × ((t.spans (suc s.span_count)).flatten_prefix ≡ "")
        × ((t.spans (suc s.span_count)).golden ≡ none)
        × (t.traces (t.spans (suc s.span_count)).tr ≡ [])
  unfolding make_span_golden
  make_span_golden-fresh otel now i s c t b e =
      let ctx : Ctx = record { otel_span = otel; span = some i; golden = none } in
      let (x, f, e1) = bind-some (start_golden_trace env ctx "root" now s) _ (c, t) e in
      let same = some_inj (sym f ∙ start_golden_trace-new otel (some i) now s) in
      let rest = λ (y : Ctx × Store F). elim y.0.golden as (λ o. Option (Ctx × Store F)) [
        | none ↦ none
        | some g ↦ make_golden env g i now y.1 >>= λ u. some (y.0, u)
      ] in
      let e2 = subst (λ y. rest y ≡ some (c, t)) same e1 in
      let (u, h, e3) =
        bind-some (make_golden env s.golden_count i now (rooted now s)) _ (c, t) e2 in
      let r = rooted now s in
      let spec : Golden = record {
        ctx = record { otel_span = some s.span_count; span = none; golden = none };
        span = s.span_count;
      } in
      let at = ap (λ x. x.ctx) (upd_at s.golden_count spec s.goldens) in
      let a =
        make_golden-fresh env s.golden_count i now (some s.span_count) r at (omega (arith, b)) u
          h in
      subst
        (λ y.
          (y.0.golden ≡ some s.golden_count)
          × ((y.1.spans i).golden ≡ some (suc s.span_count))
          × ((y.1.spans (suc s.span_count)).flatten_prefix ≡ "")
          × ((y.1.spans (suc s.span_count)).golden ≡ none)
          × (y.1.traces (y.1.spans (suc s.span_count)).tr ≡ []))
        (some_inj e3) (refl, a.0, a.1, a.2, a.3)
