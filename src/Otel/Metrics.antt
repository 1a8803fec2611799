-- ===== src/Otel/Metrics.antt =====
-- The metrics of an ended span, extracted from its fields (o11y/otel/metrics.go). `F` stands for
-- float64, `of_int` for its conversion and `show` for the verb %v; `none` is a panic, with the calls
-- before it forgotten.
pub mod Extracted
use Prim.Native.String.{◌++◌ as concat}
use go_o11y.Prelude.{
  String, Bool, true, false, Option, none, some, List, [], ◌∷◌, ◌++◌, is_some, if◌then◌else◌, Dict,
  get, put, str_eq, trim_suffix,
}
use go_o11y.Prelude.Int.{ℤ, pos}
use go_o11y.Prelude.Partial.{◌>>=◌}
use go_o11y.Errors.{Err}
use go_o11y.Span.{Metric, Tag, MetricType, timer, gauge_metric, count_metric}
use go_o11y.HttpClient.Metrics.{to_millis}

-- A field's value, by what the program tells apart: `int` is an int or an int64, and `other` any other
-- type.
pub data Any (F : Type 0) : Type 0 where
  text : String → Any F
  flag : Bool → Any F
  int : ℤ → Any F
  float : F → Any F
  duration : ℤ → Any F
  duration_pointer : Option ℤ → Any F
  fault : Err → Any F
  other : String → Any F

-- A call of the MetricsProvider.
pub data MetricCall (F : Type 0) : Type 0 where
  time_in_milliseconds : String → F → List String → MetricCall F
  count : String → ℤ → List String → MetricCall F
  gauge : String → F → List String → MetricCall F

-- fmtTag, of a value that is shown.
unfoldable pub fmt_tag : String → String → String
fmt_tag name val = concat name (concat ":" val)

module _ {F : Type 0} where
  unfoldable pub get_field : String → Dict (Any F) → Option (Any F)
  get_field name fields = elim (get name fields) [
    | some v ↦ some v
    | none ↦ get (concat "app." name) fields
  ]

  unfoldable pub to_int64 : Any F → Option ℤ
  to_int64 (int n) = some n
  to_int64 _ = none

  -- The loop of addFailure: the class of the first key with the suffix, and whether there is one.
  unfoldable pub first_failure : Dict (Any F) → Option String
  first_failure [] = none
  first_failure ((k, v) ∷ fields) =
      let rest = first_failure fields in
      if str_eq (trim_suffix k "_error") k then rest else some (trim_suffix k "_error")

  -- addFailure
  unfoldable pub add_failure : Dict (Any F) → String × Dict (Any F)
  unfolding first_failure
  add_failure fields =
      if is_some (get "failure" fields) then ("", fields) else elim (first_failure fields) [
        | none ↦ ("", fields)
        | some c ↦ (c, put "failure" (text c) fields)
      ]

  -- One of the standard counts, if there is such a field.
  unfoldable pub count_field : String → Dict (Any F) → List (MetricCall F)
  count_field k fields =
      if is_some (get k fields) then count k (pos 1) (fmt_tag "type" "o11y" ∷ []) ∷ [] else []

  -- standardErrorMetrics
  unfoldable pub standard_error_metrics : Dict (Any F) → List (MetricCall F) × Dict (Any F)
  unfolding add_failure count_field
  standard_error_metrics fields =
      let out = add_failure fields in
      let failed =
        if str_eq out.0 "" then [] else count "failure" (pos 1) (fmt_tag "class" out.0 ∷ []) ∷ [] in
      (failed ++ count_field "error" out.1 ++ count_field "warning" out.1, out.1)

  module _ (of_int : ℤ → F) (show : Any F → String) where
    unfoldable pub to_float64 : Any F → Option F
    to_float64 (float x) = some x
    to_float64 (int n) = some (of_int n)
    to_float64 _ = none

    -- toMilliSecond, which panics at a nil pointer.
    unfoldable pub to_milli_second : Any F → Option (Option F)
    unfolding to_float64 to_millis
    to_milli_second (duration d) = some (some (of_int (to_millis d)))
    to_milli_second (duration_pointer none) = none
    to_milli_second (duration_pointer (some d)) = some (some (of_int (to_millis d)))
    to_milli_second v = some (to_float64 v)

    unfoldable pub extract_tags_from_fields : List String → Dict (Any F) → List String
    extract_tags_from_fields [] fields = []
    extract_tags_from_fields (name ∷ tags) fields =
        let rest = extract_tags_from_fields tags fields in
        elim (get_field name fields) [ none ↦ rest | some v ↦ fmt_tag name (show v) ∷ rest ]

    -- The tag that a count may have; `tag_text` shows its value.
    abbrev fixed_tags : (Tag → String) → Option Tag → List String
    fixed_tags tag_text none = []
    fixed_tags tag_text (some t) = fmt_tag t.name (tag_text t) ∷ []

    module _ (tag_text : Tag → String) where
      -- The body of the loop, by the metric's type: the call that it makes, if any.
      unfoldable pub extract_timer : Metric → Dict (Any F) → Option (List (MetricCall F))
      unfolding to_milli_second get_field
      extract_timer m fields = elim (get_field m.field_name fields) [
        | none ↦ some []
        | some v ↦ (do
          ms ← to_milli_second v
          x ← ms
          some (time_in_milliseconds m.name x (extract_tags_from_fields m.tag_fields fields) ∷ []))
      ]

      unfoldable pub extract_gauge : Metric → Dict (Any F) → Option (List (MetricCall F))
      unfolding to_float64 get_field
      extract_gauge m fields = elim (get_field m.field_name fields) [
        | none ↦ some []
        | some v ↦ (do
          x ← to_float64 v
          some (gauge m.name x (extract_tags_from_fields m.tag_fields fields) ∷ []))
      ]

      -- The call of Count with the tags.
      abbrev counted : Metric → Dict (Any F) → ℤ → List (MetricCall F)
      counted m fields n =
          count m.name n
            (extract_tags_from_fields m.tag_fields fields ++ fixed_tags tag_text m.fixed_tag)
          ∷ []

      unfoldable pub extract_count : Metric → Dict (Any F) → Option (List (MetricCall F))
      unfolding to_int64 get_field
      extract_count m fields =
          if str_eq m.field_name ""
          then some (counted m fields (pos 1))
          else elim (get_field m.field_name fields) [
            | none ↦ some []
            | some v ↦ (do n ← to_int64 v; some (counted m fields n))
          ]

      unfoldable pub extract_metric : Metric → Dict (Any F) → Option (List (MetricCall F))
      unfolding extract_timer extract_gauge extract_count
      extract_metric m fields = elim m.type [
        | timer ↦ extract_timer m fields
        | gauge_metric ↦ extract_gauge m fields
        | count_metric ↦ extract_count m fields
      ]

      unfoldable pub extract_metrics : List Metric → Dict (Any F) → Option (List (MetricCall F))
      unfolding extract_metric
      extract_metrics [] fields = some []
      extract_metrics (m ∷ ms) fields = do
        calls ← extract_metric m fields
        rest ← extract_metrics ms fields
        some (calls ++ rest)

      -- extractAndSendMetrics
      unfoldable pub extract_and_send_metrics :
          List Metric → Dict (Any F) → Option (List (MetricCall F))
      unfolding standard_error_metrics extract_metrics
      extract_and_send_metrics ms fields =
          let out = standard_error_metrics fields in
          do calls ← extract_metrics ms out.1; some (out.0 ++ calls)
