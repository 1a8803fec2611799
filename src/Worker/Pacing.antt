-- ===== src/Worker/Pacing.antt =====
-- How long the worker waits, and what its back-off policy goes through (worker/worker.go).
use go_o11y.Prelude.{
  All, ◌≡◌, refl, arith, ℕ, ◌+◌, ◌≤◌, ◌<◌, true, Option, none, some, List, [], ◌∷◌, is_some,
}
use go_o11y.Errors.{Err, err_is}
use go_o11y.Worker.{Config, Round, returned, decide, do_work, step, run_from, err_should_backoff}

abbrev pub or_zero : Option ℕ → ℕ
or_zero none = 0
or_zero (some n) = n

module _ {B : Type 0} (cfg : Config B) where
  -- A round in which the policy gives no duration takes the minimum time with what is waited after
  -- it, or its own time if that is more, and resets the policy; one in which it gives one waits just
  -- that, and keeps the policy's new state.
  step_paced :
      (r : Round) (b : B)
      → ((do_work cfg r.work b).0.backoff ≡ none
          → (cfg.min_work_time ≤ r.took + or_zero (step cfg r b).0)
            × (r.took ≤ cfg.min_work_time → r.took + or_zero (step cfg r b).0 ≡ cfg.min_work_time)
            × (cfg.min_work_time < r.took → (step cfg r b).0 ≡ none)
            × ((step cfg r b).1 ≡ cfg.no_work_back_off.initial))
        × ((wait : ℕ)
            → (do_work cfg r.work b).0.backoff ≡ some wait
            → ((step cfg r b).0 ≡ some wait) × ((step cfg r b).1 ≡ (do_work cfg r.work b).0.policy))
  unfolding step
  step_paced r b = (
    λ h. (ground arith, λ k. ground arith, λ k. ground arith, ground arith),
    λ w h. (ground arith, ground arith),
  )

  abbrev next : B → Option ℕ × B
  next = cfg.no_work_back_off.next

  -- The policy gives a duration at each of the calls for the rounds.
  abbrev pub Gives : List Round → B → Type 0
  Gives [] b = Unit
  Gives (r ∷ rs) b = (is_some (next b).0 ≡ true) × Gives rs (next b).1

  -- What the policy gives for the rounds, and the state that it is in then.
  abbrev pub given : List Round → B → List (Option ℕ) × B
  given [] b = ([], b)
  given (r ∷ rs) b = ((next b).0 ∷ (given rs (next b).1).0, (given rs (next b).1).1)

  abbrev pub AsksToBackOff : Round → Type 0
  AsksToBackOff r =
      (e : Err) × (r.work ≡ returned (some e)) × (err_is (some e) err_should_backoff ≡ true)

  step_asked :
      (r : Round) (b : B)
      → AsksToBackOff r
      → is_some (next b).0 ≡ true
      → step cfg r b ≡ ((next b).0, (next b).1)
  unfolding step decide do_work
  step_asked r b h k = ground (arith, h)

  run_asked :
      (rs : List Round) (b : B) → All AsksToBackOff rs → Gives rs b → run_from cfg rs b ≡ given rs b
  unfolding run_from
  run_asked [] b h g = refl
  run_asked (r ∷ rs) b h g =
      rw (step_asked r b h.0 g.0) (ground (arith, run_asked rs (next b).1 h.1 g.1))

  -- After a round that did not back off, rounds that all ask to back off wait the durations that the
  -- policy gives in turn from its initial state, whatever state it was in before.
  pub run_from-backoff :
      (r : Round) (rs : List Round) (b : B)
      → (do_work cfg r.work b).0.backoff ≡ none
      → All AsksToBackOff rs
      → Gives rs cfg.no_work_back_off.initial
      → run_from cfg (r ∷ rs) b ≡ (
        (step cfg r b).0 ∷ (given rs cfg.no_work_back_off.initial).0,
        (given rs cfg.no_work_back_off.initial).1,
      )
  unfolding run_from
  run_from-backoff r rs b none_given asked gives =
      ground (
        arith,
        (step_paced r b).0 none_given,
        run_asked rs cfg.no_work_back_off.initial asked gives,
      )
