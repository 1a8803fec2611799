-- ===== src/Examples/Honeycombs.antt =====
-- A span with two wrappers: the one that StartSpan returned and one that GetSpan made.
use go_o11y.Prelude.{◌≡◌, refl, ℕ, String, Bool, true, false, none, some, [], ◌∷◌, ◌++◌, Dict}
use go_o11y.Prelude.Int.{pos, pos_part}
use go_o11y.Span.{Metric, Tag, count_metric}
use go_o11y.Otel.Metrics as Metrics
use go_o11y.Otel.Metrics.{Any, MetricCall}
use go_o11y.Honeycomb.Provider.{Config, Fields, on_end, senders_of, text_sender, honeycomb}
use go_o11y.Honeycomb.Recorded.{
  of_wrapper, record_all, unrecorded, sent_by_otel, on_end-last_wrapper,
}

abbrev config : Config
config = record {
  key = "k";
  format = "color";
  send_traces = true;
  sender = none;
  sample_traces = true;
  has_metrics = true;
}

senders_two : senders_of config ≡ honeycomb ∷ text_sender true ∷ []
unfolding senders_of
senders_two = refl

abbrev show : Any ℕ → String
show v = "v"

abbrev tag_text : Tag → String
tag_text t = "t"

abbrev drop : Fields ℕ → Bool
drop f = false

abbrev counted : String → Metric
counted name = record {
  type = count_metric;
  name = name;
  field_name = "";
  fixed_tag = none;
  tag_fields = [];
}

abbrev values : Dict (Any ℕ)
values = ("result", Metrics.text "success") ∷ []

-- The metric recorded through the first wrapper is lost.
on_end_loses :
    on_end pos_part show tag_text config drop
      (record_all ((0, counted "a") ∷ (1, counted "b") ∷ []) (unrecorded values)).fields
    ≡ some (Metrics.count "b" (pos 1) [] ∷ [], record { values = values; metrics = none })
unfolding on_end go_o11y.Honeycomb.Provider.record_through Metrics.extract_metrics
    Metrics.standard_error_metrics go_o11y.Prelude.get go_o11y.Prelude.trim_suffix
    Metrics.extract_tags_from_fields
on_end_loses = refl

on_end-last_wrapper_example :
    on_end pos_part show tag_text config drop
      (record_all ((0, counted "a") ∷ [] ++ (1, counted "b") ∷ []) (unrecorded values)).fields
    ≡ sent_by_otel pos_part show tag_text
        (of_wrapper 1 ((0, counted "a") ∷ []) ++ counted "b" ∷ [])
        values
on_end-last_wrapper_example =
    on_end-last_wrapper pos_part show tag_text config drop ((0, counted "a") ∷ []) 1 (counted "b")
      values refl refl
