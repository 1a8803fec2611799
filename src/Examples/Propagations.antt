-- ===== src/Examples/Propagations.antt =====
-- A span that is flattened to the depth 2 and has a golden trace calls another service.
use go_o11y.Prelude.{ℕ, String, Bool, none, some, List, [], ◌∷◌, is_some, if◌then◌else◌, Dict, get}
use go_o11y.Baggage.{Header, BaggageContext}
use go_o11y.Baggage.RoundTrip.{first_of}
use go_o11y.Otel.Propagation.{PropagationState, Traces, Propagator}
use go_o11y.Examples.Baggages.{ctx}
use go_o11y.Examples.Otel.{span, store}

abbrev written : Dict String → Header
written [] = []
written ((k, v) ∷ bag) = (k, v ∷ []) ∷ written bag

abbrev read : Header → Dict String
read [] = []
read ((k, []) ∷ h) = read h
read ((k, v ∷ vs) ∷ h) = (k, v) ∷ read h

-- The first header is for the span.
abbrev propagator : Propagator
propagator = record {
  inject = λ sp bag. ("Traceparent", if is_some sp then "00" ∷ [] else []) ∷ written bag;
  baggage_in = λ h. elim h [
    | [] ↦ none
    | x ∷ rest ↦ elim (read rest) [ [] ↦ none | m ∷ bag ↦ some (m ∷ bag) ]
  ];
  has_span = λ h. is_some (first_of (get "Traceparent" h));
}

abbrev client : PropagationState
client = record { spans = record { otel_span = some 0; span = some 0; golden = some 0 }; bag = ctx }

abbrev server : PropagationState
server = record { spans = record { otel_span = none; span = none; golden = none }; bag = ctx }

abbrev there : Traces ℕ
there = record {
  store = record store {
    spans = λ i. record span { flatten_depth = 2; flatten_prefix = "l2" };
    goldens =
        λ g. record { ctx = record { otel_span = some 2; span = some 2; golden = none }; span = 2 };
  };
  golden_bags = λ g. [];
}

abbrev here : Traces ℕ
here = record { store = store; golden_bags = λ g. [] }
