-- ===== src/Examples/Errors.antt =====
-- Warnings and the results of spans, at concrete errors.
use go_o11y.Prelude.{
  ◌≡◌, refl, String, true, false, Option, some, List, [], ◌∷◌, if◌then◌else◌, is_some,
}
use go_o11y.Errors.{
  Err, Errs, var, text, wrap, join, nil, cons, warning, is, is_warning, all_warning, canceled,
}
use go_o11y.Span
use go_o11y.Span.{end_span, message}
use go_o11y.Span.Results.{raw_values, end_span-result, traced_as_error, error_values}

abbrev mixed : Errs
mixed = cons (text "failed") nil

-- A joined warning is enough for IsWarning, and not after AllWarning.
mixed_warning :
    (is_warning (some (join (cons (var (warning 7)) mixed))) ≡ true)
    × (is_warning (all_warning (some (join (cons (var (warning 7)) mixed)))) ≡ false)
unfolding is_warning all_warning is
mixed_warning = (refl, refl)

abbrev layers : List String
layers = "a" ∷ "b" ∷ []

abbrev stopped : Option Err
stopped = some (wrap "query" (var canceled))

end_span-result_example :
    (raw_values "error" (end_span stopped) ≡ error_values stopped)
    × (raw_values "result" (end_span stopped)
        ≡ Span.text (
            if traced_as_error stopped
            then "error"
            else if is_warning stopped
            then "success"
            else if is_some stopped
            then "canceled"
            else "success")
          ∷ [])
end_span-result_example = end_span-result stopped
