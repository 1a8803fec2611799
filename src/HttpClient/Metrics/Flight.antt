-- ===== src/HttpClient/Metrics/Flight.antt =====
-- What the in-flight gauges say while requests run at the same time (httpclient/metrics/metrics.go).
use go_o11y.Prelude.{◌≡◌, refl, arith, ℕ, suc, ◌-◌, ◌≤◌, String, Bool, List, [], ◌∷◌}
use go_o11y.Prelude.Int.{pos}
use native.Mathlib.Decide.{dec_lt}
use go_o11y.HttpClient.Metrics.{Metrics, new_metrics, enter, leave, gauges}

-- A critical section of RoundTrip: that at its start, or that at its end.
pub data Trip : Type 0 where
  enters leaves : Trip

-- The critical sections so far, the latest first.
abbrev pub play : List Trip → Metrics → Metrics
play [] m = m
play (enters ∷ es) m = enter (play es m)
play (leaves ∷ es) m = leave (play es m)

abbrev pub entered : List Trip → ℕ
entered [] = 0
entered (enters ∷ es) = suc (entered es)
entered (leaves ∷ es) = entered es

abbrev pub left : List Trip → ℕ
left [] = 0
left (enters ∷ es) = left es
left (leaves ∷ es) = suc (left es)

-- The requests that are in RoundTrip.
abbrev pub open_trips : List Trip → ℕ
open_trips es = entered es - left es

-- A request leaves after it entered.
abbrev pub Nested : List Trip → Type 0
Nested [] = Unit
Nested (e ∷ es) = (left (e ∷ es) ≤ entered (e ∷ es)) × Nested es

-- The points of the history up to now.
pub data Past (p : List Trip) : List Trip → Type 0 where
  now : Past p p
  earlier : {e : Trip} {es : List Trip} → Past p es → Past p (e ∷ es)

-- The greatest number of requests in RoundTrip at any point so far.
pub record Peak (es : List Trip) (k : ℕ) : Type 0 where
  pub bounds : (p : List Trip) → Past p es → open_trips p ≤ k
  pub reached : (p : List Trip) × Past p es × (open_trips p ≡ k)

Nested-left : (es : List Trip) → Nested es → left es ≤ entered es
Nested-left [] h = omega arith
Nested-left (e ∷ es) h = h.0

module _ (e : Trip) (es : List Trip) (k : ℕ) (v : Peak es k) where
  -- The peak stays if the latest point is not above it, and is the latest point otherwise.
  Peak-kept : open_trips (e ∷ es) ≤ k → Peak (e ∷ es) k
  Peak-kept h = record { bounds = go; reached = (v.reached.0, earlier v.reached.1, v.reached.2) }
    where
      go : (p : List Trip) → Past p (e ∷ es) → open_trips p ≤ k
      go p now = h
      go p (earlier q) = v.bounds p q

  Peak-risen : k ≤ open_trips (e ∷ es) → Peak (e ∷ es) (open_trips (e ∷ es))
  Peak-risen h = record { bounds = go; reached = (e ∷ es, now, refl) }
    where
      go : (p : List Trip) → Past p (e ∷ es) → open_trips p ≤ open_trips (e ∷ es)
      go p now = omega arith
      go p (earlier q) = omega (arith, v.bounds p q, h)

module _ (has_provider : Bool) (name : String) where
  abbrev pub played : List Trip → Metrics
  played es = play es (new_metrics has_provider name)

  played-Peak :
      (es : List Trip)
      → Nested es
      → ((played es).in_flight ≡ pos (open_trips es))
        × ((k : ℕ) × ((played es).in_flight_max ≡ pos k) × Peak es k)
  unfolding new_metrics enter leave
  played-Peak [] h =
      (refl, (0, refl, record { bounds = λ p q. first p q; reached = ([], now, refl) }))
    where
      first : (p : List Trip) → Past p [] → open_trips p ≤ 0
      first p now = omega arith
  played-Peak (enters ∷ es) (h, hs) =
      let (e, (k, f, v)) = played-Peak es hs in
      let le = Nested-left es hs in
      let up : suc (entered es - left es) ≡ suc (entered es) - left es = omega (arith, le) in
      (
        ground (arith, e, up),
        elim (dec_lt k (suc (entered es - left es))) [
          | yes q ↦ (
            suc (entered es) - left es,
            ground (arith, e, f, q, up),
            Peak-risen enters es k v (omega (arith, q, up)),
          )
          | no q ↦ (k, ground (arith, e, f, q), Peak-kept enters es k v (omega (arith, q, up)))
        ],
      )
  played-Peak (leaves ∷ es) (h, hs) =
      let (e, (k, f, v)) = played-Peak es hs in
      (ground (arith, e, h), (k, f, Peak-kept leaves es k v (omega (arith, v.bounds es now))))

  -- However requests enter and leave RoundTrip, where each leaves after it entered, the instant gauge
  -- of a new client's metrics is the number that entered less the number that left; and the max gauge
  -- is at no point of the history so far less than this difference was, and equals it at one.
  pub gauges-played :
      (es : List Trip)
      → Nested es
      → ((gauges (played es)).instant ≡ pos (open_trips es))
        × ((k : ℕ) × ((gauges (played es)).max ≡ pos k) × Peak es k)
  unfolding gauges
  gauges-played es h = played-Peak es h
