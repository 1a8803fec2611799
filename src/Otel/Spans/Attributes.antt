-- ===== src/Otel/Spans/Attributes.antt =====
-- What copyAttrsFrom copies to a golden span, and what a span's error counts (o11y/otel/otel.go).
use mathlib.Core.Path.{subst}
use go_o11y.Prelude.{
  ◌≡◌, refl, sym, ap, ◌∙◌, arith, ℕ, suc, ◌+◌, ◌≤◌, String, Bool, true, false, ◌||◌, none, some,
  List, [], ◌∷◌, ◌++◌, is_some, ◌==◌, if◌then◌else◌, Dict, get, put, get-put, Distinct, str_eq,
  eq_iff, or_else, inl, inr, Bool-cases,
}
use go_o11y.Prelude.Partial.{some_inj}
use go_o11y.Span.{Metric}
use go_o11y.Otel.Metrics.{Any, MetricCall, add_failure}
use go_o11y.Otel.Metrics.Extracted.{
  call_names, standard_calls, all_calls, all_sound, extract_and_send_metrics-add_failure,
}
use go_o11y.Otel.Spans.{Env, Store, SpanState, set_attributes, set_name}
use go_o11y.Otel.Spans.Ending.{copy_fields, copy_attrs_from, end_otel}
use go_o11y.Otel.Spans.Copied.{ends, ends-append, set_span_at}
use go_o11y.Otel.Spans.Completing.{calls_of}

abbrev pub is_own : String → Bool
is_own k = str_eq k "name" || str_eq k "duration_ms"

own-differs : (j k : String) → is_own j ≡ true → is_own k ≡ false → str_eq j k ≡ false
own-differs j k e o = ground (arith, eq_iff j k, λ (q : j ≡ k). ap is_own q, e, o)

abbrev pub occurs : List String → ℕ
occurs [] = 0
occurs (n ∷ ns) = let rest = occurs ns in if str_eq n "error" then suc rest else rest

from_sent : {A : Type 0} (b : Bool) (ns xs : A) → some xs ≡ (if b then some ns else none) → xs ≡ ns
from_sent true ns xs e = some_inj e
from_sent false ns xs e = cc

module _ {F : Type 0} (env : Env F) where
  copy_fields-get :
      (k : String) (d : Dict (Any F)) (p : SpanState F)
      → Distinct d
      → is_own k ≡ false
      → get k (copy_fields env d p).fields ≡ or_else (get k d) (get k p.fields)
  unfolding copy_fields get
  copy_fields-get k [] p h o = refl
  copy_fields-get k ((j, v) ∷ d) p h o =
      let p' = record p { fields = put j v p.fields; calls = p.calls ++ set_attributes j v ∷ [] } in
      let Goal = λ (b : Bool).
        get k (copy_fields env d (if b then p else p')).fields
        ≡ or_else (if str_eq j k then some v else get k d) (get k p.fields) in
      elim (Bool-cases (is_own j)) [
        | inl e ↦
            subst Goal (sym e) (copy_fields-get k d p h.1 o ∙ ground (arith, own-differs j k e o))
        | inr e ↦
            subst Goal (sym e) (
              copy_fields-get k d p' h.1 o
              ∙ ground (arith, get-put j k v p.fields, h.0, eq_iff j k))
      ]

  -- What copying leaves alone.
  abbrev pub Same : SpanState F → SpanState F → Type 0
  Same p q =
      (ends q.calls ≡ ends p.calls)
      × (q.flatten_prefix ≡ p.flatten_prefix)
      × (q.golden ≡ p.golden)
      × (q.metrics ≡ p.metrics)
      × (q.tr ≡ p.tr)

  copy_fields-Same : (d : Dict (Any F)) (p : SpanState F) → Same p (copy_fields env d p)
  unfolding copy_fields
  copy_fields-Same [] p = (refl, refl, refl, refl, refl)
  copy_fields-Same ((j, v) ∷ d) p =
      let p' = record p { fields = put j v p.fields; calls = p.calls ++ set_attributes j v ∷ [] } in
      let a = copy_fields-Same d p' in
      let Goal = λ (b : Bool). Same p (copy_fields env d (if b then p else p')) in
      elim (Bool-cases (is_own j)) [
        | inl e ↦ subst Goal (sym e) (copy_fields-Same d p)
        | inr e ↦
            subst Goal (sym e) (
              a.0 ∙ ends-append p.calls (set_attributes j v ∷ []) ∙ omega arith,
              a.1,
              a.2,
              a.3,
              a.4,
            )
      ]

  -- How many of the calls of the metrics provider have the name `error`.
  abbrev pub errors : List (MetricCall F) → ℕ
  errors calls = occurs (call_names calls)

  pub errors-append : (a b : List (MetricCall F)) → errors (a ++ b) ≡ errors a + errors b
  errors-append [] b = omega arith
  errors-append (c ∷ a) b = ground (arith, errors-append a b)

  standard-occurs :
      (fields : Dict (Any F))
      → is_some (get "error" fields) ≡ true
      → 1 ≤ errors (standard_calls env.of_int env.show env.tag_text fields)
  standard-occurs fields h = ground (arith, h)

  pub calls_of-errors :
      (ms : List Metric) (fields : Dict (Any F)) (calls : List (MetricCall F))
      → is_some (get "error" fields) ≡ true
      → calls_of env ms fields ≡ some calls
      → 1 ≤ errors calls
  calls_of-errors ms fields calls h e =
      let fields' = (add_failure fields).1 in
      let standard = standard_calls env.of_int env.show env.tag_text fields in
      let more = all_calls env.of_int env.show env.tag_text ms fields' in
      let same =
        from_sent (all_sound ms fields') (standard ++ more) calls (
          sym e
          ∙ extract_and_send_metrics-add_failure env.of_int env.show env.tag_text ms fields) in
      omega (arith, ap errors same, standard-occurs fields h, errors-append standard more)

  -- What copyAttrsFrom does to the golden span.
  pub copy_attrs_from-Same :
      (g i : ℕ) (s : Store F)
      → Same (s.spans g) ((copy_attrs_from env g i s).spans g)
        × (Distinct (s.spans i).fields
            → (k : String) → is_own k ≡ false
            → get k ((copy_attrs_from env g i s).spans g).fields
              ≡ or_else (get k (s.spans i).fields) (get k (s.spans g).fields))
        × ((j : ℕ) → (j == g) ≡ false → (copy_attrs_from env g i s).spans j ≡ s.spans j)
  unfolding copy_attrs_from
  copy_attrs_from-Same g i s =
      let p = s.spans g in
      let q = record p { calls = p.calls ++ set_name p.name ∷ [] } in
      let a = copy_fields-Same (s.spans i).fields q in
      let at = set_span_at env g (copy_fields env (s.spans i).fields q) s in
      (
        subst (Same p) (sym at)
            (a.0 ∙ ends-append p.calls (set_name p.name ∷ []) ∙ omega arith, a.1, a.2, a.3, a.4),
        λ d k o. ap (λ x. get k x.fields) at ∙ copy_fields-get k (s.spans i).fields q d o,
        λ j n. rw n refl,
      )

  pub sent_alone :
      (g i : ℕ) (s : Store F)
      → ((copy_attrs_from env g i (end_otel env i s)).sent ≡ s.sent)
        × ((copy_attrs_from env g i (end_otel env i s)).traces ≡ s.traces)
  unfolding copy_attrs_from end_otel
  sent_alone g i s = (refl, refl)
