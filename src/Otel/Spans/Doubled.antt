-- ===== src/Otel/Spans/Doubled.antt =====
-- The end of a span that has a golden span (o11y/otel/otel.go).
use mathlib.Core.Path.{subst}
use Prim.Native.String.{◌++◌ as concat}
use go_o11y.Prelude.{
  put_all, ◌≡◌, refl, sym, ap, ◌∙◌, arith, ℕ, suc, String, ◌+◌, ◌≤◌, true, false, Option, none,
  some, [], ◌++◌, is_some, ◌==◌, get, put, get-put, Distinct, eq_iff, or_else,
}
use go_o11y.HttpClient.Metrics.{between, to_millis}
use go_o11y.Otel.Metrics.{int}
use go_o11y.Otel.Spans.{Env, Store, SpanState}
use go_o11y.Otel.Spans.Ending.{copy_attrs_from, end_otel, end_span}
use go_o11y.Otel.Spans.Copied.{ends}
use go_o11y.Otel.Spans.Completing.{final_fields}
use go_o11y.Otel.Spans.Ended.{final_fields-Distinct, ended_plain, ended_golden, end_otel-ends}
use go_o11y.Otel.Spans.Attributes.{
  is_own, errors, errors-append, calls_of-errors, copy_attrs_from-Same, sent_alone,
}

module _ {F : Type 0} (env : Env F) where
  -- The fields of a golden span when it ends, other than its own two, if its trace has none.
  final_fields-golden :
      (now : ℕ) (s : Store F) (p : SpanState F) (k : String)
      → s.traces p.tr ≡ []
      → is_own k ≡ false
      → get k (final_fields env now s p) ≡ get k p.fields
  final_fields-golden now s p k e o =
      let ms = int (to_millis (between now p.start)) in
      ap (λ m. get k (put_all (concat "app.") m (put "duration_ms" ms p.fields))) e
      ∙ ground (
        arith,
        get-put "duration_ms" k ms p.fields,
        eq_iff "duration_ms" k,
        eq_iff k "duration_ms",
        o,
      )

  still :
      {A : Type 0} {c : Option A} (a b : Option A)
      → is_some a ≡ true
      → c ≡ or_else a b
      → is_some c ≡ true
  still (some x) b h e = ap is_some e
  still none b h e = cc

  end_otel-sent : (i : ℕ) (s : Store F) → (end_otel env i s).sent ≡ s.sent
  unfolding end_otel
  end_otel-sent i s = refl

  module _ (fuel now i g : ℕ) (s t : Store F) where
    -- The end of a span with a golden span, when it does not panic, where the golden span is neither
    -- flattened nor golden and its trace has no fields: both OpenTelemetry spans are ended once
    -- more, and the golden span gets every field of the span but `name` and `duration_ms`, in place
    -- of the field that it had there. If the span has an error and there is a metrics provider, then
    -- the error is counted twice: two calls or more with the name `error` are made.
    pub end_span-golden :
        (s.spans i).flatten_prefix ≡ ""
        → (s.spans i).golden ≡ some g
        → (i == g) ≡ false
        → (s.spans g).flatten_prefix ≡ ""
        → (s.spans g).golden ≡ none
        → s.traces (s.spans g).tr ≡ []
        → Distinct (s.spans i).fields
        → end_span env (suc (suc fuel)) now i s ≡ some t
        → (ends (t.spans i).calls ≡ suc (ends (s.spans i).calls))
          × (ends (t.spans g).calls ≡ suc (ends (s.spans g).calls))
          × ((k : String)
              → is_own k ≡ false
              → get k (t.spans g).fields
                ≡ or_else (get k (t.spans i).fields) (get k (s.spans g).fields))
          × (env.has_provider ≡ true
              → is_some (get "error" (t.spans i).fields) ≡ true
              → errors env s.sent + 2 ≤ errors env t.sent)
    end_span-golden p h n pg hg tr_g d e =
        let (u, a, f) = ended_golden env (suc fuel) now i s t g p h e in
        let v = end_otel env i u in
        let w = copy_attrs_from env g i v in
        let n' : (g == i) ≡ false = ground (arith, n) in
        let c = copy_attrs_from-Same env g i v in
        let o = end_otel-ends env i u in
        let vg = o.3 g n' ∙ a.others g n' in
        let (x, b, same) =
          ended_plain env fuel now g w t (c.0.1 ∙ ap (λ y. y.flatten_prefix) vg ∙ pg)
            (c.0.2 ∙ ap (λ y. y.golden) vg ∙ hg) f in
        let z = end_otel-ends env g x in
        let ti = ap (λ y. y.spans i) same ∙ z.3 i n ∙ b.others i n ∙ c.2 i n in
        let tg = ap (λ y. (y.spans g).fields) same ∙ z.1 ∙ b.fields in
        let vi = o.1 ∙ a.fields in
        let no_trace =
          ap (λ y. y (w.spans g).tr) ((sent_alone env g i u).1 ∙ a.traces)
          ∙ ap s.traces (c.0.4 ∙ ap (λ y. y.tr) vg)
          ∙ tr_g in
        let fields_of : (k : String)
            → is_own k ≡ false
            → get k (t.spans g).fields
              ≡ or_else (get k (t.spans i).fields) (get k (s.spans g).fields) =
          λ k own.
            ap (get k) tg
            ∙ final_fields-golden now w (w.spans g) k no_trace own
            ∙ c.1 (subst Distinct (sym vi) (final_fields-Distinct env now s (s.spans i) d)) k own
            ∙ ap (λ y. or_else (get k y.fields) (get k (v.spans g).fields)) (sym ti)
            ∙ ap (λ y. or_else (get k (t.spans i).fields) (get k y.fields)) vg in
        (
          ap (λ y. ends y.calls) ti ∙ o.0 ∙ ap suc a.kept.ends,
          ap (λ y. ends (y.spans g).calls) same
              ∙ z.0
              ∙ ap suc (b.kept.ends ∙ c.0.0 ∙ ap (λ y. ends y.calls) vg),
          fields_of,
          λ provider h.
              let first =
                calls_of-errors env (s.spans i).metrics (final_fields env now s (s.spans i))
                  a.sent.0
                  (subst (λ m. is_some (get "error" m) ≡ true) (ap (λ y. y.fields) ti ∙ vi) h)
                  (a.sent.2 provider) in
              let second =
                calls_of-errors env (w.spans g).metrics (final_fields env now w (w.spans g))
                  b.sent.0
                  (subst (λ m. is_some (get "error" m) ≡ true) tg
                    (still (get "error" (t.spans i).fields) (get "error" (s.spans g).fields) h
                      (fields_of "error" refl)))
                  (b.sent.2 provider) in
              let sent =
                ap (λ y. y.sent) same
                ∙ end_otel-sent g x
                ∙ b.sent.1
                ∙ ap (λ y. y ++ b.sent.0) ((sent_alone env g i u).0 ∙ a.sent.1) in
              omega (
                arith,
                first,
                second,
                ap (errors env) sent,
                errors-append env (s.sent ++ a.sent.0) b.sent.0,
                errors-append env s.sent a.sent.0,
              ),
        )
