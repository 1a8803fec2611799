-- ===== src/Otel/Spans/Flattened.antt =====
-- What becomes of the fields of a flattened span (o11y/otel/otel.go).
use mathlib.Core.Path.{subst}
use Prim.Native.String.{◌++◌ as concat}
use go_o11y.Prelude.{
  put_all, get-put_all, get-put_all_other, ◌≡◌, sym, ap, ◌∙◌, arith, ℕ, suc, String, false, some,
  ◌==◌, if◌then◌else◌, get, Distinct, str_eq, or_else, append_cancel_left,
}
use go_o11y.Prelude.Partial.{bind-some}
use go_o11y.Otel.Spans.{Env, Store}
use go_o11y.Otel.Spans.Ending.{complete, pass_up, end_otel, end_golden, end_span}
use go_o11y.Otel.Spans.Copied.{Filled, add_fields-Filled, ends}
use go_o11y.Otel.Spans.Completing.{Completed, complete-Completed}
use go_o11y.Otel.Spans.Ended.{final_fields-EndsWith, final_fields-Distinct, EndsWith}

abbrev pub under : String → String → String
under prefix k = concat prefix (concat "." k)

under_inj : (prefix j k : String) → under prefix j ≡ under prefix k → j ≡ k
under_inj prefix j k e =
    append_cancel_left "." j k (append_cancel_left prefix (concat "." j) (concat "." k) e)

module _ {F : Type 0} (env : Env F) where
  pass_up-Filled :
      (i q : ℕ) (s t : Store F)
      → (s.spans i).parent ≡ some q
      → pass_up env i s ≡ some t
      → Filled F q
          (put_all (under (s.spans i).flatten_prefix) (s.spans i).fields (s.spans q).fields)
          s
          t
  unfolding pass_up
  pass_up-Filled i q s t h e =
      add_fields-Filled env (under (s.spans i).flatten_prefix) (s.spans i).fields q s t
        (ground (arith, h, e))

  module _ (fuel now i q : ℕ) (s t : Store F) where
    -- The span is completed, and then passed up.
    parts :
        str_eq (s.spans i).flatten_prefix "" ≡ false
        → end_span env (suc fuel) now i s ≡ some t
        → (u : Store F) × Completed env now i s u × (pass_up env i u ≡ some t)
    unfolding end_span
    parts p e =
        let next = λ (u : Store F).
          if str_eq (u.spans i).flatten_prefix ""
          then end_golden env (end_span env fuel now) i (end_otel env i u)
          else pass_up env i u in
        let (u, h, f) = bind-some (complete env now i s) next t e in
        let a = complete-Completed env now i s u h in
        (u, a, ground (arith, f, p, a.kept.flatten_prefix))

    -- The end of a flattened span, when it does not panic: it has its duration and the fields of its
    -- trace, its OpenTelemetry span is not ended and neither is its parent's, and the parent gets
    -- each of its fields under the prefix, in place of the field that it had there, and keeps all
    -- others.
    pub end_span-flattened :
        str_eq (s.spans i).flatten_prefix "" ≡ false
        → (s.spans i).parent ≡ some q
        → (i == q) ≡ false
        → Distinct (s.traces (s.spans i).tr)
        → Distinct (s.spans i).fields
        → end_span env (suc fuel) now i s ≡ some t
        → EndsWith env now s (s.spans i) (t.spans i).fields
          × (ends (t.spans i).calls ≡ ends (s.spans i).calls)
          × (ends (t.spans q).calls ≡ ends (s.spans q).calls)
          × ((k : String)
              → get (under (s.spans i).flatten_prefix k) (t.spans q).fields
                ≡ or_else
                    (get k (t.spans i).fields)
                    (get (under (s.spans i).flatten_prefix k) (s.spans q).fields))
          × ((j : String)
              → ((k : String) → str_eq (under (s.spans i).flatten_prefix k) j ≡ false)
              → get j (t.spans q).fields ≡ get j (s.spans q).fields)
    end_span-flattened p h n d d' e =
        let (u, a, f) = parts p e in
        let prefix = (s.spans i).flatten_prefix in
        let b = pass_up-Filled i q u t (a.kept.parent ∙ h) f in
        let own = b.others i n in
        let fields = ap (λ x. x.fields) own ∙ a.fields in
        let n' : (q == i) ≡ false = ground (arith, n) in
        let whole =
          b.fields
          ∙ ap (λ x. put_all (under x) (u.spans i).fields (u.spans q).fields) a.kept.flatten_prefix
          ∙ ap (λ x. put_all (under prefix) x.fields (u.spans q).fields) (sym own)
          ∙ ap (λ x. put_all (under prefix) (t.spans i).fields x.fields) (a.others q n') in
        (
          subst (EndsWith env now s (s.spans i)) (sym fields)
              (final_fields-EndsWith env now s (s.spans i) d),
          ap (λ x. ends x.calls) own ∙ a.kept.ends,
          b.kept.ends ∙ ap (λ x. ends x.calls) (a.others q n'),
          λ k.
              ap (get (under prefix k)) whole
              ∙ get-put_all (under prefix) (under_inj prefix) k (t.spans i).fields
                  (s.spans q).fields
                  (subst Distinct (sym fields) (final_fields-Distinct env now s (s.spans i) d')),
          λ j o.
              ap (get j) whole
              ∙ get-put_all_other (under prefix) j o (t.spans i).fields (s.spans q).fields,
        )
