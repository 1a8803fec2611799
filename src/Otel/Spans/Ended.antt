-- ===== src/Otel/Spans/Ended.antt =====
-- What End makes of a span's fields (o11y/otel/otel.go).
use mathlib.Core.Path.{subst}
use Prim.Native.String.append
use Prim.Native.String.{◌++◌ as concat}
use go_o11y.Prelude.{
  get-put_all, get-put_all_other, put_all-Distinct, ◌≡◌, ◌≢◌, refl, ap, sym, ◌∙◌, arith, ℕ, suc,
  String, false, Option, none, some, [], ◌∷◌, ◌++◌, ◌==◌, if◌then◌else◌, Dict, get, put, get-put,
  Distinct, put-Distinct, str_eq, eq_iff, or_else, append_cancel_left, first_code,
}
use go_o11y.Prelude.Partial.{bind-some, some_inj}
use go_o11y.HttpClient.Metrics.{between, to_millis}
use go_o11y.Otel.Metrics.{Any, int}
use go_o11y.Otel.Spans.{Env, Store, SpanState, ended}
use go_o11y.Otel.Spans.Ending.{complete, pass_up, end_otel, end_golden, end_span, copy_attrs_from}
use go_o11y.Otel.Spans.Copied.{ends, ends-append, set_span_at}
use go_o11y.Otel.Spans.Completing.{final_fields, Completed, complete-Completed}

-- A key under `app.` is no key that begins otherwise.
app-ne : (k j : String) → first_code j ≢ 97 → str_eq (concat "app." k) j ≡ false
app-ne k j h = ground (arith, eq_iff (concat "app." k) j, other)
  where
    other : concat "app." k ≢ j
    other e = h (sym (ap first_code (sym (append.cons "a" "pp." k) ∙ e)))

module _ {F : Type 0} (env : Env F) where
  -- The fields of a span when it ends: those of the trace under `app.`, before its own, and how long
  -- it took.
  abbrev pub EndsWith : ℕ → Store F → SpanState F → Dict (Any F) → Type 0
  EndsWith now s p own =
      (get "duration_ms" own ≡ some (int (to_millis (between now p.start))))
      × ((k : String)
          → get (concat "app." k) own
            ≡ or_else (get k (s.traces p.tr)) (get (concat "app." k) p.fields))

  pub final_fields-Distinct :
      (now : ℕ) (s : Store F) (p : SpanState F)
      → Distinct p.fields
      → Distinct (final_fields env now s p)
  final_fields-Distinct now s p h =
      let ms = int (to_millis (between now p.start)) in
      put_all-Distinct (concat "app.") (s.traces p.tr) (put "duration_ms" ms p.fields)
        (put-Distinct "duration_ms" ms p.fields h)

  pub final_fields-EndsWith :
      (now : ℕ) (s : Store F) (p : SpanState F)
      → Distinct (s.traces p.tr)
      → EndsWith now s p (final_fields env now s p)
  final_fields-EndsWith now s p d =
      let m = put "duration_ms" (int (to_millis (between now p.start))) p.fields in
      (
        get-put_all_other (concat "app.") "duration_ms"
              (λ k. app-ne k "duration_ms" (λ q. omega (arith, q))) (s.traces p.tr) m
            ∙ ground (
              arith,
              get-put "duration_ms" "duration_ms" (int (to_millis (between now p.start))) p.fields,
            ),
        λ k.
            get-put_all (concat "app.") (append_cancel_left "app.") k (s.traces p.tr) m d
            ∙ ap (or_else (get k (s.traces p.tr))) (
                ground (
                  arith,
                  get-put "duration_ms" (concat "app." k) (int (to_millis (between now p.start)))
                      p.fields,
                  eq_iff "duration_ms" (concat "app." k),
                  eq_iff (concat "app." k) "duration_ms",
                  app-ne k "duration_ms" (λ q. omega (arith, q)),
                )),
      )

  pub end_otel-ends :
      (i : ℕ) (s : Store F)
      → (ends ((end_otel env i s).spans i).calls ≡ suc (ends (s.spans i).calls))
        × (((end_otel env i s).spans i).fields ≡ (s.spans i).fields)
        × (((end_otel env i s).spans i).golden ≡ (s.spans i).golden)
        × ((j : ℕ) → (j == i) ≡ false → (end_otel env i s).spans j ≡ s.spans j)
  unfolding end_otel
  end_otel-ends i s =
      let p = s.spans i in
      let q = record p { calls = p.calls ++ ended ∷ [] } in
      (
        rw (set_span_at env i q s) (ends-append p.calls (ended ∷ []) ∙ omega arith),
        rw (set_span_at env i q s) refl,
        rw (set_span_at env i q s) refl,
        λ j h. rw h refl,
      )

  pub end_golden-none :
      (next : ℕ → Store F → Option (Store F)) (i : ℕ) (u : Store F)
      → (u.spans i).golden ≡ none
      → end_golden env next i u ≡ some u
  unfolding end_golden
  end_golden-none next i u h = ground (arith, h)

  pub end_golden-some :
      (next : ℕ → Store F → Option (Store F)) (i g : ℕ) (u : Store F)
      → (u.spans i).golden ≡ some g
      → end_golden env next i u ≡ next g (copy_attrs_from env g i u)
  unfolding end_golden
  end_golden-some next i g u h = ground (arith, h)

  module _ (fuel now i : ℕ) (s t : Store F) where
    -- A span that is not flattened is completed and ended, before its golden span is.
    ended_first :
        (s.spans i).flatten_prefix ≡ ""
        → end_span env (suc fuel) now i s ≡ some t
        → (u : Store F) × Completed env now i s u
          × (end_golden env (end_span env fuel now) i (end_otel env i u) ≡ some t)
    unfolding end_span
    ended_first p e =
        let golden = λ (u : Store F). end_golden env (end_span env fuel now) i (end_otel env i u) in
        let next = λ (u : Store F).
          if str_eq (u.spans i).flatten_prefix "" then golden u else pass_up env i u in
        let (u, h, f) = bind-some (complete env now i s) next t e in
        let a = complete-Completed env now i s u h in
        (
          u,
          a,
          subst (λ x. (if str_eq x "" then golden u else pass_up env i u) ≡ some t)
              (a.kept.flatten_prefix ∙ p) f,
        )

    pub ended_plain :
        (s.spans i).flatten_prefix ≡ ""
        → (s.spans i).golden ≡ none
        → end_span env (suc fuel) now i s ≡ some t
        → (u : Store F) × Completed env now i s u × (t ≡ end_otel env i u)
    ended_plain p g e =
        let (u, a, f) = ended_first p e in
        let none_golden =
          end_golden-none (end_span env fuel now) i (end_otel env i u)
            ((end_otel-ends i u).2 ∙ a.kept.golden ∙ g) in
        (u, a, some_inj (sym f ∙ none_golden))

    pub ended_golden :
        (g : ℕ)
        → (s.spans i).flatten_prefix ≡ ""
        → (s.spans i).golden ≡ some g
        → end_span env (suc fuel) now i s ≡ some t
        → (u : Store F) × Completed env now i s u
          × (end_span env fuel now g (copy_attrs_from env g i (end_otel env i u)) ≡ some t)
    ended_golden g p h e =
        let (u, a, f) = ended_first p e in
        let some_golden =
          end_golden-some (end_span env fuel now) i g (end_otel env i u)
            ((end_otel-ends i u).2 ∙ a.kept.golden ∙ h) in
        (u, a, sym some_golden ∙ f)
