-- ===== src/Span/Results.antt =====
-- What an ended span says of its error.
use go_o11y.Prelude.{
  ◌≡◌, refl, String, Bool, not, ◌&&◌, Option, none, some, List, [], ◌∷◌, arith, if◌then◌else◌,
  str_eq, is_some,
}
use go_o11y.Errors.{Err, is_warning, err_is, dont_error_trace}
use go_o11y.Span.{Value, text, message, Span, add_raw_field, end_span}

-- The values set under a key, in order.
abbrev pub raw_values : String → Span → List Value
raw_values k [] = []
raw_values k (add_raw_field j v ∷ s) = if str_eq j k then v ∷ raw_values k s else raw_values k s
raw_values k (_ ∷ s) = raw_values k s

abbrev pub traced_as_error : Option Err → Bool
traced_as_error err = is_some err && not (dont_error_trace err)

abbrev pub error_values : Option Err → List Value
error_values none = []
error_values (some e) = if dont_error_trace (some e) then [] else message e ∷ []

-- Every ended span has exactly one result. An "error" field is set exactly when the error is not
-- nil and DontErrorTrace is false of it, and then the result is "error" and the field has its
-- text; a warning's result is "success", and that of another ended context "canceled".
pub end_span-result :
    (err : Option Err)
    → (raw_values "error" (end_span err) ≡ error_values err)
      × (raw_values "result" (end_span err)
          ≡ text (
              if traced_as_error err
              then "error"
              else if is_warning err
              then "success"
              else if is_some err
              then "canceled"
              else "success")
            ∷ [])
unfolding end_span dont_error_trace err_is is_warning
end_span-result none = (refl, refl)
end_span-result (some e) = (ground arith, ground arith)
