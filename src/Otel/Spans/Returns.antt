-- ===== src/Otel/Spans/Returns.antt =====
-- When the end of a span returns (o11y/otel/otel.go).
use mathlib.Core.Path.{subst}
use Prim.Native.String.{◌++◌ as concat}
use go_o11y.Prelude.{
  false, Bool-cases, inl, inr, arith, ◌≡◌, refl, sym, ap, ◌∙◌, inl, inr, arith, ℕ, suc, String,
  Bool, true, false, Option, none, some, List, [], ◌∷◌, is_some, if◌then◌else◌, ◌++◌, Dict, str_eq,
  contains, Option-cases,
}
use go_o11y.Prelude.Partial.{◌>>=◌}
use go_o11y.Span.{Metric}
use go_o11y.Otel.Metrics.{Any, MetricCall, add_failure}
use go_o11y.Otel.Metrics.Extracted.{all_sound, extract_and_send_metrics-add_failure}
use go_o11y.Otel.Spans.{Env, Store, add_raw_field, set_span, with_field}
use go_o11y.Otel.Spans.Ending.{
  add_fields, send_metric, with_duration, complete, pass_up, end_otel, end_golden, end_span,
}
use go_o11y.Otel.Spans.Flattened.{under}
use go_o11y.Otel.Spans.Completing.{
  Completed, final_fields, calls_of, complete-Completed, trace_at, filled_by,
}
use go_o11y.Otel.Spans.Ended.{end_otel-ends, end_golden-none}

module _ {F : Type 0} (env : Env F) where
  -- None of the fields gets a key with a dash.
  abbrev pub Clean : (String → String) → Dict (Any F) → Type 0
  Clean key [] = Unit
  Clean key ((k, v) ∷ d) = (contains (key k) "-" ≡ false) × Clean key d

  add_fields-some :
      (key : String → String) (d : Dict (Any F)) (i : ℕ) (s : Store F)
      → Clean key d
      → is_some (add_fields env key d i s) ≡ true
  unfolding add_fields add_raw_field
  add_fields-some key [] i s c = refl
  add_fields-some key ((k, v) ∷ d) i s c =
      rw c.0 (add_fields-some key d i (set_span env i (with_field env (key k) v (s.spans i)) s) c.1)

  bind-is_some :
      {A B : Type 0} (o : Option A) (f : A → Option B)
      → is_some o ≡ true
      → ((a : A) → o ≡ some a → is_some (f a) ≡ true)
      → is_some (o >>= f) ≡ true
  bind-is_some none f h k = cc
  bind-is_some (some a) f h k = k a refl

  calls_of-some :
      (ms : List Metric) (fields : Dict (Any F))
      → all_sound ms (add_failure fields).1 ≡ true
      → is_some (calls_of env ms fields) ≡ true
  calls_of-some ms fields h =
      ap is_some (extract_and_send_metrics-add_failure env.of_int env.show env.tag_text ms fields)
      ∙ ground (arith, h)

  send_metric-some :
      (i : ℕ) (s : Store F)
      → (env.has_provider ≡ true
          → all_sound (s.spans i).metrics (add_failure (s.spans i).fields).1 ≡ true)
      → is_some (send_metric env i s) ≡ true
  unfolding send_metric
  send_metric-some i s h =
      sent env.has_provider (calls_of env (s.spans i).metrics (s.spans i).fields)
        (λ q. calls_of-some (s.spans i).metrics (s.spans i).fields (h q))
    where
      sent :
          (b : Bool) (o : Option (List (MetricCall F)))
          → (b ≡ true → is_some o ≡ true)
          → is_some (if b then o >>= (λ cs. some (record s { sent = s.sent ++ cs })) else some s)
            ≡ true
      sent true o k =
          bind-is_some o (λ cs. some (record s { sent = s.sent ++ cs })) (k refl) (λ cs e. refl)
      sent false o k = refl

  complete-some :
      (now i : ℕ) (s : Store F)
      → Clean (concat "app.") (s.traces (s.spans i).tr)
      → (env.has_provider ≡ true
          → all_sound (s.spans i).metrics (add_failure (final_fields env now s (s.spans i))).1
            ≡ true)
      → is_some (complete env now i s) ≡ true
  unfolding complete
  complete-some now i s c h =
      let s1 = with_duration env now i s in
      bind-is_some (add_fields env (concat "app.") (s1.traces (s1.spans i).tr) i s1)
        (send_metric env i)
        (add_fields-some (concat "app.") (s1.traces (s1.spans i).tr) i s1
          (subst (Clean (concat "app.")) (sym (trace_at env now i s)) c))
        (λ s2 e.
          let f = filled_by env now i s s2 e in
          send_metric-some i s2 (λ q.
            ap (λ x. all_sound x (add_failure (s2.spans i).fields).1) f.1
            ∙ ap (λ x. all_sound (s.spans i).metrics (add_failure x).1) f.0
            ∙ h q))

  pass_up-some :
      (i : ℕ) (s : Store F)
      → Clean (under (s.spans i).flatten_prefix) (s.spans i).fields
      → is_some (pass_up env i s) ≡ true
  unfolding pass_up
  pass_up-some i s c = elim (Option-cases (s.spans i).parent) [
    | inl h ↦ ground (arith, h)
    | inr (q, h) ↦
        ground
          (arith, h, add_fields-some (under (s.spans i).flatten_prefix) (s.spans i).fields q s c)
  ]

  -- The next step of End after the span is completed.
  abbrev after_complete : ℕ → ℕ → ℕ → Store F → Option (Store F)
  after_complete fuel now i u =
      if str_eq (u.spans i).flatten_prefix ""
      then end_golden env (end_span env fuel now) i (end_otel env i u)
      else pass_up env i u

  end_span-steps :
      (fuel now i : ℕ) (s : Store F)
      → Clean (concat "app.") (s.traces (s.spans i).tr)
      → (env.has_provider ≡ true
          → all_sound (s.spans i).metrics (add_failure (final_fields env now s (s.spans i))).1
            ≡ true)
      → ((u : Store F) → Completed env now i s u → is_some (after_complete fuel now i u) ≡ true)
      → is_some (end_span env (suc fuel) now i s) ≡ true
  unfolding end_span
  end_span-steps fuel now i s c h k =
      bind-is_some (complete env now i s) (after_complete fuel now i) (complete-some now i s c h)
        (λ u e. k u (complete-Completed env now i s u e))

  -- The end of a span without a golden span returns, whatever the fuel: if no key of its trace has a
  -- dash under `app.`, none of its own has one under the prefix if it is flattened with one, and each
  -- of its metrics that finds its field can be taken from it, where there is a metrics provider.
  pub end_span-returns :
      (fuel now i : ℕ) (s : Store F)
      → (s.spans i).golden ≡ none
      → Clean (concat "app.") (s.traces (s.spans i).tr)
      → (str_eq (s.spans i).flatten_prefix "" ≡ false
          → Clean (under (s.spans i).flatten_prefix) (final_fields env now s (s.spans i)))
      → (env.has_provider ≡ true
          → all_sound (s.spans i).metrics (add_failure (final_fields env now s (s.spans i))).1
            ≡ true)
      → is_some (end_span env (suc fuel) now i s) ≡ true
  end_span-returns fuel now i s g c c' h = end_span-steps fuel now i s c h (λ u a.
      let plain =
        end_golden-none env (end_span env fuel now) i (end_otel env i u)
          ((end_otel-ends env i u).2 ∙ a.kept.golden ∙ g) in
      let P = λ (b : Bool).
        is_some {A = Store F} (
          if b
          then end_golden env (end_span env fuel now) i (end_otel env i u)
          else pass_up env i u)
        ≡ true in
      elim (Bool-cases (str_eq (u.spans i).flatten_prefix "")) [
        | inl q ↦ subst P (sym q) (ap is_some plain)
        | inr q ↦
            let clean = c' (ap (λ x. str_eq x "") (sym a.kept.flatten_prefix) ∙ q) in
            subst P (sym q) (
              pass_up-some i u (
                subst (λ x. Clean (under x) (u.spans i).fields) (sym a.kept.flatten_prefix)
                  (subst (Clean (under (s.spans i).flatten_prefix)) (sym a.fields) clean)))
      ])
