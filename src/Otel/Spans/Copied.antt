-- ===== src/Otel/Spans/Copied.antt =====
-- Fields that are added to a span, one after another (o11y/otel/otel.go).
use mathlib.Core.Path.{subst}
use go_o11y.Prelude.{
  put_all, ◌≡◌, refl, ◌∙◌, arith, ℕ, suc, ◌+◌, String, Bool, true, false, none, some, List, [], ◌∷◌,
  ◌++◌, ◌==◌, if◌then◌else◌, if_both, Dict, put, str_eq, contains,
}
use go_o11y.Prelude.Partial.{bind-some, some_inj}
use go_o11y.Otel.Metrics.{Any, text}
use go_o11y.Otel.Spans.{
  Env, Store, SpanState, OtelCall, started, taken_over, set_name, set_attributes, add_link, ended,
  set_span, plain, renamed, with_field, add_raw_field,
}
use go_o11y.Otel.Spans.Ending.{add_fields}

-- How often the OpenTelemetry span was ended.
abbrev pub ends : {F : Type 0} → List (OtelCall F) → ℕ
ends [] = 0
ends (ended ∷ cs) = suc (ends cs)
ends (c ∷ cs) = ends cs

pub ends-append : {F : Type 0} (a b : List (OtelCall F)) → ends (a ++ b) ≡ ends a + ends b
ends-append [] b = omega arith
ends-append (ended ∷ a) b = omega (arith, ends-append a b)
ends-append (started p k ∷ a) b = ends-append a b
ends-append (taken_over p ∷ a) b = ends-append a b
ends-append (set_name n ∷ a) b = ends-append a b
ends-append (set_attributes k v ∷ a) b = ends-append a b
ends-append (add_link n ∷ a) b = ends-append a b

-- A span to which only fields are added.
pub record Kept (F : Type 0) (p q : SpanState F) : Type 0 where
  pub tr : q.tr ≡ p.tr
  pub parent : q.parent ≡ p.parent
  pub flatten_prefix : q.flatten_prefix ≡ p.flatten_prefix
  pub golden : q.golden ≡ p.golden
  pub metrics : q.metrics ≡ p.metrics
  pub start : q.start ≡ p.start
  pub ends : ends q.calls ≡ ends p.calls

Kept-trans : {F : Type 0} (p q r : SpanState F) → Kept F p q → Kept F q r → Kept F p r
Kept-trans p q r a b = record {
  tr = b.tr ∙ a.tr;
  parent = b.parent ∙ a.parent;
  flatten_prefix = b.flatten_prefix ∙ a.flatten_prefix;
  golden = b.golden ∙ a.golden;
  metrics = b.metrics ∙ a.metrics;
  start = b.start ∙ a.start;
  ends = b.ends ∙ a.ends;
}

-- A store in which only the span `i` has got fields, and now has those of `m`.
pub record Filled (F : Type 0) (i : ℕ) (m : Dict (Any F)) (s t : Store F) : Type 0 where
  pub fields : (t.spans i).fields ≡ m
  pub kept : Kept F (s.spans i) (t.spans i)
  pub others : (j : ℕ) → (j == i) ≡ false → t.spans j ≡ s.spans j
  pub traces : t.traces ≡ s.traces
  pub sent : t.sent ≡ s.sent

Kept-refl : {F : Type 0} (p : SpanState F) → Kept F p p
Kept-refl p = record {
  tr = refl;
  parent = refl;
  flatten_prefix = refl;
  golden = refl;
  metrics = refl;
  start = refl;
  ends = refl;
}

module _ {F : Type 0} (env : Env F) where
  pub set_span_at : (i : ℕ) (p : SpanState F) (s : Store F) → (set_span env i p s).spans i ≡ p
  set_span_at i p s = ground arith

  -- Only fields are added, and they are then `m`.
  abbrev Fields : SpanState F → Dict (Any F) → SpanState F → Type 0
  Fields p m q = Kept F p q × (q.fields ≡ m)

  add_call :
      (p : SpanState F) (c : OtelCall F)
      → ends (c ∷ []) ≡ 0
      → Fields p p.fields (record p { calls = p.calls ++ c ∷ [] })
  add_call p c h = (
    record {
      tr = refl;
      parent = refl;
      flatten_prefix = refl;
      golden = refl;
      metrics = refl;
      start = refl;
      ends = ends-append p.calls (c ∷ []) ∙ omega (arith, h);
    },
    refl,
  )

  -- The name and the fields of a span are not what `Kept` reads.
  retagged :
      (p : SpanState F) (t : String)
      → Kept F p (record p { calls = p.calls ++ set_name t ∷ [] })
      → Kept F p (record p { name = t; calls = p.calls ++ set_name t ∷ [] })
  retagged p t k = record {
    tr = k.tr;
    parent = k.parent;
    flatten_prefix = k.flatten_prefix;
    golden = k.golden;
    metrics = k.metrics;
    start = k.start;
    ends = k.ends;
  }

  refielded :
      (k : String) (v : Any F) (p r : SpanState F)
      → Kept F (record p { fields = put k v p.fields }) r
      → Kept F p r
  refielded key v p r k = record {
    tr = k.tr;
    parent = k.parent;
    flatten_prefix = k.flatten_prefix;
    golden = k.golden;
    metrics = k.metrics;
    start = k.start;
    ends = k.ends;
  }

  renamed-Fields :
      (k : String) (v : Any F) (p : SpanState F) → Fields p p.fields (renamed env k v p)
  unfolding renamed
  renamed-Fields k (text t) p =
      if_both (Fields p p.fields) (str_eq k "name")
        (retagged p t (add_call p (set_name t) refl).0, refl) (Kept-refl p, refl)
  renamed-Fields k v p = (Kept-refl p, refl)

  pub with_field-Kept :
      (k : String) (v : Any F) (p : SpanState F)
      → Kept F p (with_field env k v p) × ((with_field env k v p).fields ≡ put k v p.fields)
  unfolding with_field
  with_field-Kept k v p =
      let q = record p { fields = put k v p.fields } in
      let r = renamed env k (plain env v) q in
      let a = renamed-Fields k (plain env v) q in
      let b = add_call r (set_attributes k (plain env v)) refl in
      (Kept-trans p r (with_field env k v p) (refielded k v p r a.0) b.0, b.1 ∙ a.1)

  pub put_span-Filled :
      (i : ℕ) (q : SpanState F) (s : Store F)
      → Kept F (s.spans i) q
      → Filled F i q.fields s (set_span env i q s)
  put_span-Filled i q s k = record {
    fields = rw (set_span_at i q s) refl;
    kept = rw (set_span_at i q s) k;
    others = λ j h. rw h refl;
    traces = refl;
    sent = refl;
  }

  add_raw_field-Filled :
      (k : String) (v : Any F) (i : ℕ) (s t : Store F)
      → add_raw_field env k (some v) i s ≡ some t
      → Filled F i (put k v (s.spans i).fields) s t
  unfolding add_raw_field
  add_raw_field-Filled k v i s t e = stored (contains k "-") e
    where
      stored :
          (b : Bool)
          → (if b then none else some (set_span env i (with_field env k v (s.spans i)) s)) ≡ some t
          → Filled F i (put k v (s.spans i).fields) s t
      stored true q = cc
      stored false q =
          let w = with_field env k v (s.spans i) in
          let h = with_field-Kept k v (s.spans i) in
          subst (Filled F i (put k v (s.spans i).fields) s) (some_inj q)
            (subst (λ m. Filled F i m s (set_span env i w s)) h.1 (put_span-Filled i w s h.0))

  pub Filled-trans :
      (i : ℕ) (m n : Dict (Any F)) (s t u : Store F)
      → Filled F i m s t
      → Filled F i n t u
      → Filled F i n s u
  Filled-trans i m n s t u a b = record {
    fields = b.fields;
    kept = Kept-trans (s.spans i) (t.spans i) (u.spans i) a.kept b.kept;
    others = λ j h. b.others j h ∙ a.others j h;
    traces = b.traces ∙ a.traces;
    sent = b.sent ∙ a.sent;
  }

  pub add_fields-Filled :
      (key : String → String) (d : Dict (Any F)) (i : ℕ) (s t : Store F)
      → add_fields env key d i s ≡ some t
      → Filled F i (put_all key d (s.spans i).fields) s t
  unfolding add_fields
  add_fields-Filled key [] i s t e = subst (Filled F i (s.spans i).fields s) (some_inj e) (record {
    fields = refl;
    kept = Kept-refl (s.spans i);
    others = λ j h. refl;
    traces = refl;
    sent = refl;
  })
  add_fields-Filled key ((k, v) ∷ d) i s t e =
      let (u, h, f) =
        bind-some (add_raw_field env (key k) (some v) i s) (add_fields env key d i) t e in
      let a = add_raw_field-Filled (key k) v i s u h in
      let b = add_fields-Filled key d i u t f in
      Filled-trans i (put (key k) v (s.spans i).fields)
        (put_all key ((k, v) ∷ d) (s.spans i).fields) s u t a
        (subst (λ m. Filled F i (put_all key d m) u t) a.fields b)
