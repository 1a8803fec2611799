-- ===== src/Honeycomb.antt =====
-- The sender of the Honeycomb provider that passes its calls on to several senders
-- (o11y/honeycomb/sender.go). `S` stands for a transmission.Sender; what a method returns comes with
-- the senders that it called, in order.
pub mod Provider
pub mod Recorded
use mathlib.Core.Path.{subst}
use go_o11y.Prelude.{
  inl, inr, Bool-cases, sym, arith, ◌≡◌, refl, ap, Bool, true, false, Option, none, some, List, [],
  ◌∷◌, ◌++◌, All,
}
use go_o11y.Errors.{Err, text}

module _ {S : Type 0} where
  -- The loop of Start, which ends at the first error.
  unfoldable pub start_each : (S → Option Err) → List S → Option Err × List S
  start_each f [] = (none, [])
  start_each f (s ∷ ss) =
      let rest = start_each f ss in
      elim (f s) [ some e ↦ (some e, s ∷ []) | none ↦ (rest.0, s ∷ rest.1) ]

  -- Start
  unfoldable pub start : (S → Option Err) → List S → Option Err × List S
  unfolding start_each
  start f [] = (some (text "no senders configured"), [])
  start f (s ∷ ss) = start_each f (s ∷ ss)

  -- The loop of Stop and of Flush, with the result so far.
  unfoldable pub stop_each : (S → Option Err) → Option Err → List S → Option Err × List S
  stop_each f result [] = (result, [])
  stop_each f result (s ∷ ss) =
      let out = stop_each f (elim (f s) [ some e ↦ some e | none ↦ result ]) ss in
      (out.0, s ∷ out.1)

  -- The loop of SendResponse, whose `||` calls a sender only while none is pending.
  unfoldable pub send_each : (S → Bool) → Bool → List S → Bool × List S
  send_each f pending [] = (pending, [])
  send_each f true (s ∷ ss) = send_each f true ss
  send_each f false (s ∷ ss) = let out = send_each f (f s) ss in (out.0, s ∷ out.1)

  module _ (f : S → Bool) where
    -- What SendResponse returns, and whom it called.
    abbrev pub Asked : List S → Bool × List S → Type 0
    Asked ss (true, asked) =
        (before : List S) × (s : S) × (after : List S) × (ss ≡ before ++ s ∷ after)
        × (asked ≡ before ++ s ∷ [])
        × All (λ x. f x ≡ false) before
        × (f s ≡ true)
    Asked ss (false, asked) = (asked ≡ ss) × All (λ x. f x ≡ false) ss

    pending_asks_none : (ss : List S) → send_each f true ss ≡ (true, [])
    unfolding send_each
    pending_asks_none [] = refl
    pending_asks_none (s ∷ ss) = pending_asks_none ss

    call_first :
        (s : S) (ss : List S) (out : Bool × List S)
        → f s ≡ false
        → Asked ss out
        → Asked (s ∷ ss) (out.0, s ∷ out.1)
    call_first s ss (true, asked) h (b, x, a, p, q, r, t) =
        (s ∷ b, x, a, ap (λ l. s ∷ l) p, ap (λ l. s ∷ l) q, (h, r), t)
    call_first s ss (false, asked) h a = (ap (λ l. s ∷ l) a.0, (h, a.1))

    send_each-Asked : (ss : List S) → Asked ss (send_each f false ss)
    unfolding send_each
    send_each-Asked [] = (refl, tt)
    send_each-Asked (s ∷ ss) =
        let Goal = λ (o : Bool × List S). Asked (s ∷ ss) (o.0, s ∷ o.1) in
        elim (Bool-cases (f s)) [
          | inl h ↦
              subst (λ b. Goal (send_each f b ss)) (sym h)
                (subst Goal (sym (pending_asks_none ss)) ([], s, ss, refl, refl, tt, h))
          | inr h ↦
              subst (λ b. Goal (send_each f b ss)) (sym h)
                (call_first s ss (send_each f false ss) h (send_each-Asked ss))
        ]

  stop_each-none :
      (g : S → Option Err) (r : Option Err) (ss : List S)
      → ((stop_each g r ss).1 ≡ ss)
        × ((stop_each g r ss).0 ≡ none → (r ≡ none) × All (λ s. g s ≡ none) ss)
  unfolding stop_each
  stop_each-none g r [] = (refl, λ h. (h, tt))
  stop_each-none g r (s ∷ ss) =
      let a = stop_each-none g (elim (g s) [ some e ↦ some e | none ↦ r ]) ss in
      (ap (λ l. s ∷ l) a.0, λ h. let b = a.1 h in (ground (arith, b.0), (ground (arith, b.0), b.1)))

  -- SendResponse returns true exactly if some sender does, and then it calls no sender after the
  -- first that does; otherwise it calls every sender, in order. Stop and Flush always call every
  -- sender, and return no error only if none of them does.
  pub sender_calls :
      (f : S → Bool) (g : S → Option Err) (ss : List S)
      → Asked f ss (send_each f false ss)
        × ((stop_each g none ss).1 ≡ ss)
        × ((stop_each g none ss).0 ≡ none → All (λ s. g s ≡ none) ss)
  sender_calls f g ss =
      let a = stop_each-none g none ss in (send_each-Asked f ss, a.0, λ h. (a.1 h).1)
