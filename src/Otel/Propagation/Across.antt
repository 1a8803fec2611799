-- ===== src/Otel/Propagation/Across.antt =====
-- What a service makes of the headers of another one (o11y/otel/helpers.go).
use go_o11y.Prelude.{
  ◌≡◌, ℕ, ◌≤◌, String, Bool, true, false, Option, none, some, List, [], ◌∷◌, ◌==◌, or_else, Dict,
  get, Distinct,
}
use go_o11y.Baggage as Baggage
use go_o11y.Baggage.{add_extras_to_baggage}
use go_o11y.Otel.Propagation.{Propagator}

abbrev pub is_cons {ℓ} : {A : Type ℓ} → List A → Bool
is_cons [] = false
is_cons (x ∷ l) = true

-- Inject writes no header for an empty baggage, and Extract finds none; and of another one it finds
-- what Inject wrote, in some order.
pub record Carries (pr : Propagator) : Type 0 where
  pub empty : (sp : Option ℕ) → pr.baggage_in (pr.inject sp []) ≡ none
  pub full :
      (sp : Option ℕ) (bag : Dict String)
      → is_cons bag ≡ true
      → Distinct bag
      → (d : Dict String) × (pr.baggage_in (pr.inject sp bag) ≡ some d)
        × Distinct d
        × ((j : String) → get j d ≡ get j bag)
