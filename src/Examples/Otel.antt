-- ===== src/Examples/Otel.antt =====
-- The spans of the OpenTelemetry provider, at concrete stores.
use go_o11y.Prelude.{
  ◌≡◌, arith, refl, ℕ, suc, String, true, false, Option, none, some, List, [], ◌∷◌, ◌++◌, is_some,
  ◌==◌, ◌+◌, ◌≤◌, if◌then◌else◌, Dict, get, str_eq, or_else, put, contains, trim_suffix,
}
use go_o11y.Prelude.Int.{pos, pos_part}
use go_o11y.Span.{Metric, timing, incr}
use go_o11y.Otel.Metrics.{Any, text, flag, count, add_failure, get_field, extract_and_send_metrics}
use go_o11y.Otel.Metrics.Extracted.{
  class_of, with_failure, standard_calls, all_calls, all_sound, extract_and_send_metrics-calls,
}
use go_o11y.Otel.Spans.{Env, Store, SpanState, Ctx}
use go_o11y.Otel.Spans.Making.{make_span_golden}
use go_o11y.Otel.Spans.Goldens.{make_span_golden-fresh}
use go_o11y.Otel.Spans.Ending.{end_span}
use go_o11y.Otel.Spans.Copied.{ends}
use go_o11y.Otel.Spans.Ended.{EndsWith}
use go_o11y.Otel.Spans.Flattened.{under, end_span-flattened}
use go_o11y.Otel.Spans.Attributes.{is_own, errors}
use go_o11y.Otel.Spans.Doubled.{end_span-golden}
use go_o11y.Otel.Spans.Returns.{end_span-returns}

abbrev pub env : Env ℕ
env = record {
  of_int = pos_part;
  show = λ v. "shown";
  tag_text = λ t. "shown";
  decimal = λ n. "1";
  error_text = λ e. "failed";
  has_provider = true;
}

abbrev pub span : SpanState ℕ
span = record {
  tr = 0;
  parent = none;
  flatten_prefix = "";
  flatten_depth = 0;
  golden = none;
  metrics = timing "handled" ("team" ∷ []) ∷ incr "seen" [] ∷ [];
  start = 0;
  name = "root";
  opts = [];
  fields = ("error", text "broken") ∷ ("db_error", text "down") ∷ [];
  calls = [];
}

-- The span 0 has the child 1, which is flattened, and the golden span 2.
abbrev pub store : Store ℕ
store = record {
  spans = λ i.
      if i == 0
      then record span { golden = some 2 }
      else if i == 1
      then record span { parent = some 0; flatten_prefix = "sub" }
      else record span {
        tr = 1;
        metrics = [];
        fields = ("meta.golden", flag true) ∷ [];
        name = "gold";
      };
  span_count = 3;
  traces = λ i. if i == 0 then ("team", text "blue") ∷ [] else [];
  trace_count = 2;
  goldens = λ g. record { ctx = record { otel_span = none; span = none; golden = none }; span = 2 };
  golden_count = 1;
  sent = [];
}

abbrev value {ℓ} : {A : Type ℓ} → Option A → A → A
value none d = d
value (some a) d = a

abbrev after_plain : Store ℕ
after_plain = value (end_span env 1 5000000 2 store) store

abbrev after_flattened : Store ℕ
after_flattened = value (end_span env 1 5000000 1 store) store

end_span-flattened_example :
    EndsWith env 5000000 store (store.spans 1) (after_flattened.spans 1).fields
    × (ends (after_flattened.spans 1).calls ≡ ends (store.spans 1).calls)
    × (ends (after_flattened.spans 0).calls ≡ ends (store.spans 0).calls)
    × ((k : String)
        → get (under "sub" k) (after_flattened.spans 0).fields
          ≡ or_else
              (get k (after_flattened.spans 1).fields)
              (get (under "sub" k) (store.spans 0).fields))
    × ((j : String)
        → ((k : String) → str_eq (under "sub" k) j ≡ false)
        → get j (after_flattened.spans 0).fields ≡ get j (store.spans 0).fields)
unfolding end_span get contains timing put trim_suffix incr
end_span-flattened_example =
    end_span-flattened env 0 5000000 1 0 store after_flattened refl refl refl (refl, tt)
      (refl, (refl, tt)) refl

abbrev after_golden : Store ℕ
after_golden = value (end_span env 2 5000000 0 store) store

end_span-golden_example :
    (ends (after_golden.spans 0).calls ≡ suc (ends (store.spans 0).calls))
    × (ends (after_golden.spans 2).calls ≡ suc (ends (store.spans 2).calls))
    × ((k : String)
        → is_own k ≡ false
        → get k (after_golden.spans 2).fields
          ≡ or_else (get k (after_golden.spans 0).fields) (get k (store.spans 2).fields))
    × (env.has_provider ≡ true
        → is_some (get "error" (after_golden.spans 0).fields) ≡ true
        → errors env store.sent + 2 ≤ errors env after_golden.sent)
unfolding end_span get contains timing put trim_suffix incr
end_span-golden_example =
    end_span-golden env 0 5000000 0 2 store after_golden refl refl refl refl refl refl
      (refl, (refl, tt)) refl

end_span-returns_example : is_some (end_span env 1 5000000 1 store) ≡ true
unfolding end_span add_failure contains put trim_suffix get timing incr get_field
end_span-returns_example =
    end_span-returns env 0 5000000 1 store refl (refl, tt) (λ q. (refl, (refl, (refl, (refl, tt)))))
      (λ p. refl)

abbrev failed : Dict (Any ℕ)
failed = ("error", text "broken") ∷ ("db_error", text "down") ∷ []

abbrev metrics : List Metric
metrics = incr "seen" [] ∷ timing "handled" [] ∷ []

extract_and_send_metrics-calls_example :
    extract_and_send_metrics env.of_int env.show env.tag_text metrics failed ≡ (
      if all_sound metrics (with_failure (class_of failed) failed)
      then some (
          standard_calls env.of_int env.show env.tag_text failed
          ++ all_calls env.of_int env.show env.tag_text metrics
              (with_failure (class_of failed) failed))
      else none)
extract_and_send_metrics-calls_example =
    extract_and_send_metrics-calls env.of_int env.show env.tag_text metrics failed

-- The class of the failure is the prefix of the field.
the_calls :
    extract_and_send_metrics env.of_int env.show env.tag_text metrics failed
    ≡ some (
        count "failure" (pos 1) ("class:db" ∷ [])
        ∷ count "error" (pos 1) ("type:o11y" ∷ [])
        ∷ count "seen" (pos 1) []
        ∷ [])
unfolding add_failure extract_and_send_metrics get trim_suffix incr timing put
    go_o11y.Otel.Metrics.fmt_tag go_o11y.Otel.Metrics.extract_tags_from_fields
the_calls = refl

abbrev first : Store ℕ
first = record store { spans = λ i. span; span_count = 1; golden_count = 0; trace_count = 1 }

abbrev ctx : Ctx
ctx = record { otel_span = some 0; span = some 0; golden = none }

abbrev made : Ctx × Store ℕ
made = value (make_span_golden env ctx 7 first) (ctx, first)

make_span_golden-fresh_example :
    (made.0.golden ≡ some 0)
    × ((made.1.spans 0).golden ≡ some 2)
    × ((made.1.spans 2).flatten_prefix ≡ "")
    × ((made.1.spans 2).golden ≡ none)
    × (made.1.traces (made.1.spans 2).tr ≡ [])
unfolding make_span_golden contains
make_span_golden-fresh_example =
    make_span_golden-fresh env (some 0) 7 0 first made.0 made.1 (omega arith) refl
