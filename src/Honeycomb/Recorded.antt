-- ===== src/Honeycomb/Recorded.antt =====
-- Which of the recorded metrics the Honeycomb provider sends (RecordMetric and extractAndSendMetrics
-- of o11y/honeycomb/honeycomb.go).
use go_o11y.Prelude.{
  ◌≡◌, refl, sym, ap, ◌∙◌, arith, ℕ, String, Bool, true, false, ◌||◌, Option, none, some, List, [],
  ◌∷◌, ◌++◌, ◌==◌, if◌then◌else◌, append_assoc, append-nil, Dict, Bool-cases, inl, inr,
}
use go_o11y.Prelude.Int.{ℤ}
use go_o11y.Prelude.Partial.{◌>>=◌}
use go_o11y.Span.{Metric, Tag}
use go_o11y.Otel.Metrics.{
  Any, MetricCall, extract_and_send_metrics, standard_error_metrics, extract_metrics,
}
use go_o11y.Honeycomb.Provider.{
  Config, Fields, BeelineSpan, record_through, extract_hook, send_recorded, on_end, hooks_of,
}

-- The metrics recorded through one wrapper, among those recorded through any.
abbrev pub of_wrapper : ℕ → List (ℕ × Metric) → List Metric
of_wrapper i [] = []
of_wrapper i ((j, m) ∷ rs) = let rest = of_wrapper i rs in if i == j then m ∷ rest else rest

cons_if :
    (b : Bool) (m : Metric) (l : List Metric)
    → (if b then m ∷ [] else []) ++ l ≡ (if b then m ∷ l else l)
cons_if true m l = refl
cons_if false m l = refl

module _ {F : Type 0} where
  abbrev pub record_all : List (ℕ × Metric) → BeelineSpan F → BeelineSpan F
  record_all [] s = s
  record_all ((i, m) ∷ rs) s = record_all rs (record_through i m s)

  -- A span on which nothing has been recorded.
  abbrev pub unrecorded : Dict (Any F) → BeelineSpan F
  unrecorded values = record {
    fields = record { values = values; metrics = none };
    recorded = λ i. [];
  }

  recorded-record_through :
      (i j : ℕ) (m : Metric) (s : BeelineSpan F)
      → (record_through i m s).recorded j ≡ s.recorded j ++ (if j == i then m ∷ [] else [])
  unfolding record_through
  recorded-record_through i j m s = elim (Bool-cases (j == i)) [
    | inl e ↦ rw e (ap (λ k. s.recorded k ++ m ∷ []) (ground (arith, e)))
    | inr e ↦ rw e (sym (append-nil (s.recorded j)))
  ]

  recorded-record_all :
      (rs : List (ℕ × Metric)) (j : ℕ) (s : BeelineSpan F)
      → (record_all rs s).recorded j ≡ s.recorded j ++ of_wrapper j rs
  recorded-record_all [] j s = sym (append-nil (s.recorded j))
  recorded-record_all ((i, m) ∷ rs) j s =
      let some_m : List Metric = if j == i then m ∷ [] else [] in
      recorded-record_all rs j (record_through i m s)
      ∙ ap (λ l. l ++ of_wrapper j rs) (recorded-record_through i j m s)
      ∙ append_assoc (s.recorded j) some_m (of_wrapper j rs)
      ∙ ap (λ l. s.recorded j ++ l) (cons_if (j == i) m (of_wrapper j rs))

  values-record_all :
      (rs : List (ℕ × Metric)) (s : BeelineSpan F)
      → (record_all rs s).fields.values ≡ s.fields.values
  unfolding record_through
  values-record_all [] s = refl
  values-record_all ((i, m) ∷ rs) s = values-record_all rs (record_through i m s)

  record_all-append :
      (rs qs : List (ℕ × Metric)) (s : BeelineSpan F)
      → record_all (rs ++ qs) s ≡ record_all qs (record_all rs s)
  record_all-append [] qs s = refl
  record_all-append ((i, m) ∷ rs) qs s = record_all-append rs qs (record_through i m s)

  -- After the last of some metrics has been recorded, the field has those of its wrapper.
  fields-record_all :
      (rs : List (ℕ × Metric)) (i : ℕ) (m : Metric) (values : Dict (Any F))
      → (record_all (rs ++ (i, m) ∷ []) (unrecorded values)).fields
        ≡ record { values = values; metrics = some (of_wrapper i rs ++ m ∷ []) }
  unfolding record_through
  fields-record_all rs i m values =
      let s = record_all rs (unrecorded values) in
      ap (λ (x : BeelineSpan F). x.fields) (record_all-append rs ((i, m) ∷ []) (unrecorded values))
      ∙ ap (λ v. record { values = v; metrics = some (s.recorded i ++ m ∷ []) })
          (values-record_all rs (unrecorded values))
      ∙ ap (λ l. record { values = values; metrics = some (l ++ m ∷ []) })
          (recorded-record_all rs i (unrecorded values))

  module _ (of_int : ℤ → F) (show : Any F → String) (tag_text : Tag → String) where
    -- What the provider for OpenTelemetry sends of a span with these metrics, and the fields.
    abbrev pub sent_by_otel : List Metric → Dict (Any F) → Option (List (MetricCall F) × Fields F)
    sent_by_otel ms values = elim (extract_and_send_metrics of_int show tag_text ms values) [
      | none ↦ none
      | some calls ↦
          some (calls, record { values = (standard_error_metrics values).1; metrics = none })
    ]

    extract_hook-sent_by_otel :
        (ms : List Metric) (values : Dict (Any F))
        → extract_hook of_int show tag_text true (record { values = values; metrics = some ms })
          ≡ sent_by_otel ms values
    unfolding extract_hook send_recorded extract_and_send_metrics
    extract_hook-sent_by_otel ms values =
        go (extract_metrics of_int show tag_text ms (standard_error_metrics values).1)
      where
        left : Fields F
        left = record { values = (standard_error_metrics values).1; metrics = none }

        go :
            (x : Option (List (MetricCall F)))
            → elim x as (λ _. Option (List (MetricCall F) × Fields F)) [
              | none ↦ none
              | some sent ↦ some ((standard_error_metrics values).0 ++ sent, left)
            ]
              ≡ elim (x >>= λ calls. some ((standard_error_metrics values).0 ++ calls))
                  as (λ _. Option (List (MetricCall F) × Fields F)) [
                    | none ↦ none
                    | some calls ↦ some (calls, left)
                  ]
        go none = refl
        go (some sent) = refl

    on_end-taken :
        (c : Config) (keep : Fields F → Bool) (f : Fields F)
        → c.has_metrics ≡ true
        → (c.sample_traces || keep f) ≡ true
        → on_end of_int show tag_text c keep f ≡ extract_hook of_int show tag_text true f
    unfolding on_end hooks_of
    on_end-taken c keep f h k = elim (Bool-cases c.sample_traces) [
      | inl e ↦ rw e (rw h refl)
      | inr e ↦ let q : keep f ≡ true = ground (arith, e, k) in rw e (rw q (rw h refl))
    ]

    -- When a span ends, the provider with metrics sends, of the metrics that were recorded on it
    -- through any of its wrappers, those of the wrapper that recorded last, in order, and sends them
    -- and the standard ones as the provider for OpenTelemetry does, with its panics; what was recorded
    -- through the other wrappers is lost. It does so whether the span is kept or not if traces are
    -- sampled, and if the span is kept otherwise.
    pub on_end-last_wrapper :
        (c : Config) (keep : Fields F → Bool) (rs : List (ℕ × Metric)) (i : ℕ) (m : Metric)
        (values : Dict (Any F))
        → c.has_metrics ≡ true
        → (c.sample_traces || keep (record_all (rs ++ (i, m) ∷ []) (unrecorded values)).fields)
          ≡ true
        → on_end of_int show tag_text c keep
            (record_all (rs ++ (i, m) ∷ []) (unrecorded values)).fields
          ≡ sent_by_otel (of_wrapper i rs ++ m ∷ []) values
    on_end-last_wrapper c keep rs i m values h k =
        let f = (record_all (rs ++ (i, m) ∷ []) (unrecorded values)).fields in
        on_end-taken c keep f h k
        ∙ ap (extract_hook of_int show tag_text true) (fields-record_all rs i m values)
        ∙ extract_hook-sent_by_otel (of_wrapper i rs ++ m ∷ []) values
