-- ===== src/Examples/Senders.antt =====
-- Three senders of the Honeycomb provider, told apart by their numbers.
use go_o11y.Prelude.{
  ◌≡◌, refl, ℕ, Bool, true, false, Option, none, some, List, [], ◌∷◌, All, ltb, ◌==◌, if◌then◌else◌,
}
use go_o11y.Errors.{Err, text}
use go_o11y.Honeycomb.{Asked, start, stop_each, send_each, sender_calls}

abbrev senders : List ℕ
senders = 1 ∷ 2 ∷ 3 ∷ []

-- The senders from 2 on are pending.
abbrev pending : ℕ → Bool
pending s = ltb 1 s

abbrev broken : ℕ → Option Err
broken s = if s == 2 then some (text "broken") else none

sender_calls_example :
    Asked pending senders (send_each pending false senders)
    × ((stop_each broken none senders).1 ≡ senders)
    × ((stop_each broken none senders).0 ≡ none → All (λ s. broken s ≡ none) senders)
sender_calls_example = sender_calls pending broken senders

-- The third sender is not asked, and not started after the second has failed.
not_asked :
    (send_each pending false senders ≡ (true, 1 ∷ 2 ∷ []))
    × (start broken senders ≡ (some (text "broken"), 1 ∷ 2 ∷ []))
unfolding send_each start
not_asked = (refl, refl)
