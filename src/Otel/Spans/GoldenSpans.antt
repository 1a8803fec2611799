-- ===== src/Otel/Spans/GoldenSpans.antt =====
-- What MakeSpanGolden makes in the context of a golden trace (o11y/otel/otel.go).
use mathlib.Core.Path.{subst}
use go_o11y.Prelude.{
  ◌≡◌, refl, ap, sym, ◌∙◌, arith, ℕ, suc, ◌<◌, true, false, Option, none, some, [], ◌∷◌, ◌==◌,
  contains,
}
use go_o11y.Prelude.Partial.{◌>>=◌, bind-some, some_inj}
use go_o11y.Otel.Metrics.{flag}
use go_o11y.Otel.Spans.{
  Env, Store, SpanState, Ctx, upd, started, kind_of, set_span, start_span, wrap_span, add_raw_field,
  with_field,
}
use go_o11y.Otel.Spans.Copied.{set_span_at, with_field-Kept}
use go_o11y.Otel.Spans.Making.{make_golden, link}

pub upd_at : {A : Type 0} (i : ℕ) (a : A) (f : ℕ → A) → upd i a f i ≡ a
upd_at i a f = ground arith

module _ {F : Type 0} (env : Env F) where
  -- The span that wrapSpan makes without a parent.
  abbrev pub alone : SpanState F → Option ℕ → ℕ → ℕ → SpanState F
  alone sp otel tr now = record {
    tr = tr;
    parent = none;
    flatten_prefix = "";
    flatten_depth = 0;
    golden = none;
    metrics = [];
    start = now;
    name = sp.name;
    opts = sp.opts;
    fields = [];
    calls = started otel (kind_of sp.opts (record { kind = none })) ∷ [];
  }

  -- The store with it.
  abbrev pub with_root : SpanState F → Store F → Store F
  with_root p s = record (set_span env s.span_count p s) {
    span_count = suc s.span_count;
    traces = upd s.trace_count [] s.traces;
    trace_count = suc s.trace_count;
  }

  start_span-root :
      (otel : Option ℕ) (sp : SpanState F) (now : ℕ) (s : Store F)
      → start_span env
          (record { otel_span = otel; span = none; golden = none })
          sp.name
          sp.opts
          now
          s
        ≡ some (
          record { otel_span = some s.span_count; span = some s.span_count; golden = none },
          with_root (alone sp otel s.trace_count now) s,
        )
  unfolding start_span wrap_span
  start_span-root otel sp now s = refl

  -- The rest of make_golden, with the new span.
  abbrev golden_made : ℕ → ℕ → ℕ → Store F → Store F
  golden_made g i j s1 =
      let c : Ctx = record { otel_span = some j; span = some j; golden = none } in
      let s2 = record s1 { goldens = upd g (record (s1.goldens g) { ctx = c }) s1.goldens } in
      let p = s2.spans i in set_span env i (record p { golden = some j }) s2

  add_raw_field-golden :
      (j : ℕ) (s : Store F)
      → add_raw_field env "meta.golden" (some (flag true)) j s
        ≡ some (set_span env j (with_field env "meta.golden" (flag true) (s.spans j)) s)
  unfolding add_raw_field contains
  add_raw_field-golden j s = refl

  make_golden-link :
      (g i now : ℕ) (otel : Option ℕ) (s : Store F)
      → (s.goldens g).ctx ≡ record { otel_span = otel; span = none; golden = none }
      → (t : Store F) → make_golden env g i now s ≡ some t
      → let j = s.span_count in
        let s3 = golden_made g i j (with_root (alone (s.spans i) otel s.trace_count now) s) in
        t ≡ link env i j (set_span env j (with_field env "meta.golden" (flag true) (s3.spans j)) s3)
  unfolding make_golden
  make_golden-link g i now otel s h t e =
      let j = s.span_count in
      let s3 = golden_made g i j (with_root (alone (s.spans i) otel s.trace_count now) s) in
      let (x, f, e1) =
        bind-some (start_span env (s.goldens g).ctx (s.spans i).name (s.spans i).opts now s) _ t
          e in
      let same = some_inj (
        sym f
        ∙ ap (λ c. start_span env c (s.spans i).name (s.spans i).opts now s) h
        ∙ start_span-root otel (s.spans i) now s) in
      let rest = λ (y : Ctx × Store F).
        add_raw_field env "meta.golden" (some (flag true)) j (
          set_span env i (record (y.1.spans i) { golden = y.0.span })
            (record y.1 { goldens = upd g (record (s.goldens g) { ctx = y.0 }) y.1.goldens }))
        >>= λ u. some (link env i j u) in
      some_inj (
        sym (subst (λ y. rest y ≡ some t) same e1)
        ∙ ap (λ o. o >>= λ u. some (link env i j u)) (add_raw_field-golden j s3))

  -- What `link` leaves alone.
  link-kept :
      (i j k : ℕ) (s : Store F)
      → (((link env i j s).spans k).golden ≡ (s.spans k).golden)
        × (((link env i j s).spans k).flatten_prefix ≡ (s.spans k).flatten_prefix)
        × (((link env i j s).spans k).tr ≡ (s.spans k).tr)
        × (((link env i j s).spans k).fields ≡ (s.spans k).fields)
  unfolding link
  link-kept i j k s = (ground arith, ground arith, ground arith, ground arith)

  -- What is linked: the span with its new golden one, which has the field `meta.golden`.
  abbrev linked : ℕ → ℕ → Store F → Store F
  linked i j s3 = set_span env j (with_field env "meta.golden" (flag true) (s3.spans j)) s3

  link-traces : (i j : ℕ) (s : Store F) → (link env i j s).traces ≡ s.traces
  unfolding link
  link-traces i j s = refl

  golden_set : (g i j : ℕ) (s : Store F) → ((golden_made g i j s).spans i).golden ≡ some j
  golden_set g i j s = ground arith

  golden_of :
      (i j : ℕ)
      → (i == j) ≡ false
      → (s : Store F) → (s.spans i).golden ≡ some j
      → ((linked i j s).spans i).golden ≡ some j
  golden_of i j n s h = rw n h

  pub make_golden-fresh :
      (g i now : ℕ) (otel : Option ℕ) (s : Store F)
      → (s.goldens g).ctx ≡ record { otel_span = otel; span = none; golden = none }
      → i < s.span_count
      → (t : Store F) → make_golden env g i now s ≡ some t
      → ((t.spans i).golden ≡ some s.span_count)
        × ((t.spans s.span_count).flatten_prefix ≡ "")
        × ((t.spans s.span_count).golden ≡ none)
        × (t.traces (t.spans s.span_count).tr ≡ [])
  make_golden-fresh g i now otel s h b t e =
      let j = s.span_count in
      let s1 = with_root (alone (s.spans i) otel s.trace_count now) s in
      let s3 = golden_made g i j s1 in
      let u = linked i j s3 in
      let same = make_golden-link g i now otel s h t e in
      let n : (i == j) ≡ false = ground (arith, b) in
      let n' : (j == i) ≡ false = ground (arith, b) in
      let p = alone (s.spans i) otel s.trace_count now in
      let s3j : s3.spans j ≡ p = rw n' (set_span_at env j p s) in
      let uj = set_span_at env j (with_field env "meta.golden" (flag true) (s3.spans j)) s3 in
      let w = (with_field-Kept env "meta.golden" (flag true) (s3.spans j)).0 in
      let li = link-kept i j i u in
      let lj = link-kept i j j u in
      let tr = ap (λ x. x.tr) uj ∙ w.tr ∙ ap (λ x. x.tr) s3j in
      (
        ap (λ x. (x.spans i).golden) same ∙ li.0 ∙ golden_of i j n s3 (golden_set g i j s1),
        ap (λ x. (x.spans j).flatten_prefix) same
            ∙ lj.1
            ∙ ap (λ x. x.flatten_prefix) uj
            ∙ w.flatten_prefix
            ∙ ap (λ x. x.flatten_prefix) s3j,
        ap (λ x. (x.spans j).golden) same
            ∙ lj.0
            ∙ ap (λ x. x.golden) uj
            ∙ w.golden
            ∙ ap (λ x. x.golden) s3j,
        ap (λ x. x.traces (x.spans j).tr) same
            ∙ ap (λ x. x ((link env i j u).spans j).tr) (link-traces i j u)
            ∙ ap (upd s.trace_count [] s.traces) (lj.2 ∙ tr)
            ∙ ground arith,
      )
