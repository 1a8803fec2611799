-- ===== src/Otel/Metrics/Extracted.antt =====
-- What the extraction sends, and when it panics (o11y/otel/metrics.go).
use Prim.Native.String.{◌++◌ as concat}
use go_o11y.Prelude.{
  ◌≡◌, refl, ap, ◌∙◌, arith, inl, inr, Option-cases, get-put, String, Bool, true, false, ◌&&◌,
  Option, none, some, List, [], ◌∷◌, ◌++◌, is_some, or_else, if◌then◌else◌, Dict, get, put, str_eq,
  trim_suffix,
}
use go_o11y.Prelude.Int.{ℤ, pos}
use go_o11y.Prelude.Partial.{◌>>=◌, some_inj}
use go_o11y.HttpClient.Metrics.{to_millis}
use go_o11y.Span.{Metric, Tag, MetricType, timer, gauge_metric, count_metric}
use go_o11y.Otel.Metrics.{
  Any, MetricCall, text, first_failure, int, float, duration, duration_pointer, fmt_tag,
  time_in_milliseconds, count, gauge, get_field, add_failure, count_field, standard_error_metrics,
  to_milli_second, to_float64, to_int64, extract_tags_from_fields, extract_timer, extract_gauge,
  extract_count, extract_metric, extract_metrics, extract_and_send_metrics,
}

abbrev pub class_text : Option String → String
class_text none = ""
class_text (some c) = c

module _ {F : Type 0} where
  add_failure-get :
      (k : String) (fields : Dict (Any F))
      → str_eq "failure" k ≡ false
      → get k (add_failure fields).1 ≡ get k fields
  unfolding add_failure
  add_failure-get k fields e = elim (Option-cases (first_failure fields)) [
    | inl h ↦ ground arith
    | inr (c, h) ↦ ground (arith, h, e, get-put "failure" k (text c) fields)
  ]

  abbrev call_name : MetricCall F → String
  call_name (time_in_milliseconds n x tags) = n
  call_name (count n x tags) = n
  call_name (gauge n x tags) = n

  abbrev pub call_names : List (MetricCall F) → List String
  call_names [] = []
  call_names (c ∷ cs) = call_name c ∷ call_names cs

  -- The class of the first field with the suffix "_error".
  abbrev class_in : Dict (Any F) → Option String
  class_in [] = none
  class_in ((k, v) ∷ fields) =
      if str_eq (trim_suffix k "_error") k then class_in fields else some (trim_suffix k "_error")

  first_failure-class_in : (fields : Dict (Any F)) → first_failure fields ≡ class_in fields
  unfolding first_failure
  first_failure-class_in [] = refl
  first_failure-class_in ((k, v) ∷ fields) = ground (arith, first_failure-class_in fields)

  -- The class of a span's failure, unless it has a field "failure" already.
  abbrev pub class_of : Dict (Any F) → Option String
  class_of fields = if is_some (get "failure" fields) then none else class_in fields

  -- The fields, with the class of the failure.
  abbrev pub with_failure : Option String → Dict (Any F) → Dict (Any F)
  with_failure none fields = fields
  with_failure (some c) fields = put "failure" (text c) fields

  add_failure-class_of :
      (fields : Dict (Any F))
      → add_failure fields ≡ (class_text (class_of fields), with_failure (class_of fields) fields)
  unfolding add_failure
  add_failure-class_of fields =
      go (is_some (get "failure" fields)) (first_failure fields) (class_in fields)
        (first_failure-class_in fields)
    where
      go :
          (b : Bool) (x y : Option String)
          → x ≡ y
          → (if b then ("", fields) else elim x as (λ _. String × Dict (Any F)) [
            | none ↦ ("", fields)
            | some c ↦ (c, put "failure" (text c) fields)
          ])
            ≡ (class_text (if b then none else y), with_failure (if b then none else y) fields)
      go true x y e = refl
      go false none none e = refl
      go false (some c) (some d) e = ap (λ k. (k, put "failure" (text k) fields)) (some_inj e)
      go false none (some d) e = absurd (cc e)
      go false (some c) none e = absurd (cc e)

  -- The field of a metric: that of the name, or else the one behind "app.".
  abbrev pub field_of : String → Dict (Any F) → Option (Any F)
  field_of name fields = or_else (get name fields) (get (concat "app." name) fields)

  get_field-field_of :
      (name : String) (fields : Dict (Any F)) → get_field name fields ≡ field_of name fields
  unfolding get_field
  get_field-field_of name fields = go (get name fields)
    where
      go :
          (x : Option (Any F))
          → elim x as (λ _. Option (Any F)) [
            | some v ↦ some v
            | none ↦ get (concat "app." name) fields
          ]
            ≡ or_else x (get (concat "app." name) fields)
      go none = refl
      go (some v) = refl

  -- The values that a metric can be taken from.
  abbrev pub is_measure : MetricType → Any F → Bool
  is_measure timer (duration d) = true
  is_measure timer (duration_pointer d) = is_some d
  is_measure timer (int n) = true
  is_measure timer (float x) = true
  is_measure gauge_metric (int n) = true
  is_measure gauge_metric (float x) = true
  is_measure count_metric (int n) = true
  is_measure _ _ = false

  abbrev measures : MetricType → Option (Any F) → Bool
  measures t none = true
  measures t (some v) = is_measure t v

  -- A metric whose field, if it is there, can be taken; a count that names no field is fine.
  abbrev pub is_sound : Metric → Dict (Any F) → Bool
  is_sound m fields = elim m.type [
    | count_metric ↦
        if str_eq m.field_name ""
        then true
        else measures count_metric (field_of m.field_name fields)
    | t ↦ measures t (field_of m.field_name fields)
  ]

  abbrev pub all_sound : List Metric → Dict (Any F) → Bool
  all_sound [] fields = true
  all_sound (m ∷ ms) fields = is_sound m fields && all_sound ms fields

  module _ (of_int : ℤ → F) (show : Any F → String) (tag_text : Tag → String) where
    -- A tag "name:value" for each of the fields that is there.
    abbrev pub tags_of : List String → Dict (Any F) → List String
    tags_of [] fields = []
    tags_of (n ∷ names) fields =
        elim (field_of n fields) as (λ _. List String) [
          | none ↦ []
          | some v ↦ concat n (concat ":" (show v)) ∷ []
        ]
        ++ tags_of names fields

    extract_tags_from_fields-tags_of :
        (names : List String) (fields : Dict (Any F))
        → extract_tags_from_fields of_int show names fields ≡ tags_of names fields
    unfolding extract_tags_from_fields fmt_tag
    extract_tags_from_fields-tags_of [] fields = refl
    extract_tags_from_fields-tags_of (n ∷ names) fields =
        ground (arith, get_field-field_of n fields, extract_tags_from_fields-tags_of names fields)

    abbrev pub fixed_tag : Option Tag → List String
    fixed_tag none = []
    fixed_tag (some t) = concat t.name (concat ":" (tag_text t)) ∷ []

    -- The call that a value gives: a timer sends milliseconds, of a number as it is; a gauge sends the
    -- number, and a count the integer.
    abbrev pub call_of : MetricType → String → Any F → List String → List (MetricCall F)
    call_of timer n (duration d) tags = time_in_milliseconds n (of_int (to_millis d)) tags ∷ []
    call_of timer n (duration_pointer (some d)) tags =
        time_in_milliseconds n (of_int (to_millis d)) tags ∷ []
    call_of timer n (int i) tags = time_in_milliseconds n (of_int i) tags ∷ []
    call_of timer n (float x) tags = time_in_milliseconds n x tags ∷ []
    call_of gauge_metric n (int i) tags = gauge n (of_int i) tags ∷ []
    call_of gauge_metric n (float x) tags = gauge n x tags ∷ []
    call_of count_metric n (int i) tags = count n i tags ∷ []
    call_of _ n v tags = []

    abbrev calls_if : MetricType → String → Option (Any F) → List String → List (MetricCall F)
    calls_if t n none tags = []
    calls_if t n (some v) tags = call_of t n v tags

    -- The call of a metric, if there is one; a count that names no field counts one.
    abbrev pub metric_calls : Metric → Dict (Any F) → List (MetricCall F)
    metric_calls m fields =
        let tags = tags_of m.tag_fields fields in
        elim m.type [
          | count_metric ↦
              if str_eq m.field_name ""
              then count m.name (pos 1) (tags ++ fixed_tag m.fixed_tag) ∷ []
              else calls_if count_metric m.name (field_of m.field_name fields)
                  (tags ++ fixed_tag m.fixed_tag)
          | t ↦ calls_if t m.name (field_of m.field_name fields) tags
        ]

    abbrev pub all_calls : List Metric → Dict (Any F) → List (MetricCall F)
    all_calls [] fields = []
    all_calls (m ∷ ms) fields = metric_calls m fields ++ all_calls ms fields

    extract_metric-calls :
        (m : Metric) (fields : Dict (Any F))
        → extract_metric of_int show tag_text m fields
          ≡ (if is_sound m fields then some (metric_calls m fields) else none)
    unfolding extract_metric extract_timer extract_gauge extract_count to_milli_second to_float64
        to_int64 fmt_tag
    extract_metric-calls m fields = ground (
      arith,
      get_field-field_of m.field_name fields,
      extract_tags_from_fields-tags_of m.tag_fields fields,
    )

    extract_metrics-calls :
        (ms : List Metric) (fields : Dict (Any F))
        → extract_metrics of_int show tag_text ms fields
          ≡ (if all_sound ms fields then some (all_calls ms fields) else none)
    unfolding extract_metrics
    extract_metrics-calls [] fields = refl
    extract_metrics-calls (m ∷ ms) fields =
        rw (extract_metric-calls m fields, extract_metrics-calls ms fields)
          (joined (is_sound m fields) (all_sound ms fields))
      where
        joined :
            (p q : Bool)
            → (if p then some (metric_calls m fields) else none) >>= (λ calls.
                (if q then some (all_calls ms fields) else none) >>= λ rest. some (calls ++ rest))
              ≡ (if p && q then some (metric_calls m fields ++ all_calls ms fields) else none)
        joined true true = refl
        joined true false = refl
        joined false q = refl

    abbrev pub failure_calls : Option String → List (MetricCall F)
    failure_calls none = []
    failure_calls (some c) =
        if str_eq c ""
        then []
        else count "failure" (pos 1) (concat "class" (concat ":" c) ∷ []) ∷ []

    abbrev pub one_of : String → Dict (Any F) → List (MetricCall F)
    one_of k fields = if is_some (get k fields) then count k (pos 1) ("type:o11y" ∷ []) ∷ [] else []

    -- What standardErrorMetrics sends.
    abbrev pub standard_calls : Dict (Any F) → List (MetricCall F)
    standard_calls fields =
        failure_calls (class_of fields) ++ one_of "error" fields ++ one_of "warning" fields

    failure_calls-class :
        (o : Option String)
        → (if str_eq (class_text o) ""
            then []
            else count "failure" (pos 1) (concat "class" (concat ":" (class_text o)) ∷ []) ∷ [])
          ≡ failure_calls o
    failure_calls-class none = refl
    failure_calls-class (some c) = refl

    standard_error_metrics-calls :
        (fields : Dict (Any F)) → (standard_error_metrics fields).0 ≡ standard_calls fields
    unfolding standard_error_metrics count_field fmt_tag
    standard_error_metrics-calls fields =
        let e : (add_failure fields).0 ≡ class_text (class_of fields) =
          ap (λ x. x.0) (add_failure-class_of fields) in
        ap
          (λ c.
            (if str_eq c ""
              then []
              else count "failure" (pos 1) (concat "class" (concat ":" c) ∷ []) ∷ [])
            ++ count_field "error" (add_failure fields).1
            ++ count_field "warning" (add_failure fields).1)
          e
        ∙ ground (
          arith,
          failure_calls-class (class_of fields),
          add_failure-get "error" fields refl,
          add_failure-get "warning" fields refl,
        )

    standard_error_metrics-fields :
        (fields : Dict (Any F)) → (standard_error_metrics fields).1 ≡ (add_failure fields).1
    unfolding standard_error_metrics
    standard_error_metrics-fields fields = refl

    pub extract_and_send_metrics-add_failure :
        (ms : List Metric) (fields : Dict (Any F))
        → let fields' = (add_failure fields).1 in
          extract_and_send_metrics of_int show tag_text ms fields ≡ (
            if all_sound ms fields'
            then some (standard_calls fields ++ all_calls ms fields')
            else none)
    unfolding extract_and_send_metrics
    extract_and_send_metrics-add_failure ms fields =
        rw
          (
            standard_error_metrics-calls fields,
            standard_error_metrics-fields fields,
            extract_metrics-calls ms (add_failure fields).1,
          )
          (sent (all_sound ms (add_failure fields).1))
      where
        sent :
            (p : Bool)
            → (if p then some (all_calls ms (add_failure fields).1) else none)
                >>= (λ more. some (standard_calls fields ++ more))
              ≡ (if p
                  then some (standard_calls fields ++ all_calls ms (add_failure fields).1)
                  else none)
        sent true = refl
        sent false = refl

    -- The extraction panics exactly if a metric names a field that is there and is not a value that it
    -- can be taken from. Otherwise its calls are, in order: a count of one for the failure with its
    -- class, which is the key of its first field with the suffix "_error" without that suffix, and is set
    -- as the field "failure", if there was none; for the error and for the warning of the span, as far
    -- as there are these; and for each
    -- metric whose field is there, and for each count that names none, the call of the metric's type
    -- with its name, the field's value, and the tags of its fields that are there.
    pub extract_and_send_metrics-calls :
        (ms : List Metric) (fields : Dict (Any F))
        → let fields' = with_failure (class_of fields) fields in
          extract_and_send_metrics of_int show tag_text ms fields ≡ (
            if all_sound ms fields'
            then some (standard_calls fields ++ all_calls ms fields')
            else none)
    extract_and_send_metrics-calls ms fields =
        extract_and_send_metrics-add_failure ms fields
        ∙ ap
            (λ (x : String × Dict (Any F)).
              if all_sound ms x.1 then some (standard_calls fields ++ all_calls ms x.1) else none)
            (add_failure-class_of fields)
