-- ===== src/Baggage.antt =====
-- Baggage of a context, with the depth of flattening and the golden trace that it carries to other
-- services (o11y/o11y.go).
pub mod Prefixes
pub mod Carried
pub mod RoundTrip
use Prim.Native.String.{◌++◌ as concat}
use go_o11y.Prelude.{
  ℕ, String, Bool, true, false, ◌||◌, Option, none, some, List, [], ◌∷◌, ◌++◌, ltb, str_eq,
  if◌then◌else◌, Dict, get, put, put_all,
}
use go_o11y.Prelude.Int.{ℤ, pos, pos_part}
use go_o11y.Errors.{Err}
use go_o11y.System.Gauges.{underscored}
use package.text.Mathlib.Text.{starts_with}
use go_o11y.Baggage.Prefixes.{trim_prefix}

-- What is used of go.opentelemetry.io/otel/baggage, of strconv and of net/http: NewMemberRaw with its
-- error, SetMember, Itoa, Atoi with 0 on an error, and the canonical form of a header's key.
pub record Outside : Type 0 where
  pub new_member : String → String → Option Err
  pub set_member : String → String → Dict String → Option Err × Dict String
  pub itoa : ℤ → String
  pub atoi : String → ℤ
  pub canonical : String → String

-- A context: the baggage of OpenTelemetry, that of this package, the fields that were added to the
-- trace, and the errors that were added to the span.
pub record BaggageContext : Type 0 where
  pub otel : Dict String
  pub own : Option (Dict String)
  pub trace_fields : List (String × String)
  pub baggage_errors : List Err

abbrev pub flatten_depth_baggage_key : String
flatten_depth_baggage_key = "flatten"

abbrev pub golden_trace_prefix : String
golden_trace_prefix = "golden-"

unfoldable pub is_internal_baggage : String → Bool
is_internal_baggage key =
    str_eq key flatten_depth_baggage_key || starts_with key golden_trace_prefix

-- addToTrace
unfoldable pub add_to_trace : Dict String → BaggageContext → BaggageContext
unfolding is_internal_baggage underscored
add_to_trace [] ctx = ctx
add_to_trace ((k, v) ∷ b) ctx =
    let added = record ctx { trace_fields = ctx.trace_fields ++ (underscored k, v) ∷ [] } in
    add_to_trace b (if is_internal_baggage k then ctx else added)

-- An http.Header, and its Add.
abbrev pub Header : Type 0
Header = Dict (List String)

abbrev pub values_of : Option (List String) → List String
values_of none = []
values_of (some vs) = vs

module _ (o : Outside) where
  unfoldable pub header_add : String → String → Header → Header
  header_add k v h = put (o.canonical k) (values_of (get (o.canonical k) h) ++ v ∷ []) h

  with_error : Option Err → BaggageContext → BaggageContext
  with_error none ctx = ctx
  with_error (some e) ctx = record ctx { baggage_errors = ctx.baggage_errors ++ e ∷ [] }

  -- A member is set, unless it cannot be made.
  unfoldable pub set_one : String → String → BaggageContext → BaggageContext
  unfolding with_error
  set_one k v ctx = elim (o.new_member k v) [
    | some e ↦ with_error (some e) ctx
    | none ↦ let (e, bg) = o.set_member k v ctx.otel in with_error e (record ctx { otel = bg })
  ]

  -- The loop of WithBaggage.
  unfoldable pub set_members : Dict String → BaggageContext → BaggageContext
  unfolding set_one
  set_members [] ctx = ctx
  set_members ((k, v) ∷ b) ctx = set_members b (set_one k v ctx)

  -- WithBaggage
  unfoldable pub with_baggage : Dict String → BaggageContext → BaggageContext
  unfolding set_members add_to_trace
  with_baggage b ctx = record (add_to_trace b (set_members b ctx)) { own = some b }

  -- GetBaggage
  unfoldable pub get_baggage : BaggageContext → Dict String
  get_baggage ctx = elim ctx.own [ none ↦ ctx.otel | some b ↦ put_all (λ k. k) b ctx.otel ]

  -- The loop of AddExtrasToBaggage over the header, of which the first values count.
  unfoldable pub put_golden : Header → Dict String → Dict String
  put_golden [] bag = bag
  put_golden ((k, []) ∷ gold) bag = put_golden gold bag
  put_golden ((k, v ∷ vs) ∷ gold) bag = put_golden gold (put (concat golden_trace_prefix k) v bag)

  unfoldable pub extras_of : ℤ → Header → Dict String
  unfolding put_golden
  extras_of flatten gold =
      put_golden gold
        (if ltb 0 (pos_part flatten) then put flatten_depth_baggage_key (o.itoa flatten) [] else [])

  unless_empty : Dict String → BaggageContext → BaggageContext → BaggageContext
  unless_empty [] ctx with_extras = ctx
  unless_empty (kv ∷ bag) ctx with_extras = with_extras

  -- AddExtrasToBaggage
  unfoldable pub add_extras_to_baggage : ℤ → Header → BaggageContext → BaggageContext
  unfolding extras_of unless_empty
  add_extras_to_baggage flatten gold ctx =
      let bag = extras_of flatten gold in unless_empty bag ctx (with_baggage bag ctx)

  -- The loop of ExtrasFromBaggage.
  unfoldable pub add_golden : Dict String → Header → Header
  unfolding header_add
  add_golden [] gold = gold
  add_golden ((k, v) ∷ b) gold =
      let key = trim_prefix k golden_trace_prefix in
      add_golden b (if str_eq key k then gold else header_add key v gold)

  -- ExtrasFromBaggage
  unfoldable pub extras_from_baggage : BaggageContext → ℤ × Header
  unfolding get_baggage add_golden
  extras_from_baggage ctx =
      let b = get_baggage ctx in
      (elim (get flatten_depth_baggage_key b) [ none ↦ pos 0 | some v ↦ o.atoi v ], add_golden b [])
