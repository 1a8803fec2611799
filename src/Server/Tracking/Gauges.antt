-- ===== src/Server/Tracking/Gauges.antt =====
-- What the gauges of the listener say (httpserver/tracking.go).
use go_o11y.Prelude.{
  ◌≡◌, ◌≢◌, ◌⊎◌, inl, inr, ◌<◌, String, some, [], Dict, get, Distinct, length, if◌then◌else◌, Bool,
  true, false,
}
use go_o11y.Prelude.Int.{ℤ, pos, ◌≤ℤ◌}
use go_o11y.Server.Tracking.{ListenerGauges}
use go_o11y.Server.Tracking.Counts.{Serving, Tracks, from_host}

-- The value is one of the map.
abbrev IsIn : ℤ → Dict ℤ → Type 0
IsIn v m = (k : String) × (get k m ≡ some v)

picked : (b : Bool) (r c old : ℤ) → r ≡ (if b then c else old) → (r ≡ c) ⊎ (r ≡ old)
picked true r c old e = inl e
picked false r c old e = inr e

module _ (hostname : String → String) where
  -- What the gauges are to say of the connections that are accepted and not closed.
  pub record Reports (s : Serving) (g : ListenerGauges) : Type 0 where
    pub total : g.total_connections ≡ pos s.total
    pub active : g.active_connections ≡ pos (length s.live)
    pub high : (h : String) → pos (from_host hostname h s.live) ≤ℤ g.max_connections_per_remote
    high_host :
        s.live ≢ []
        → (h : String) × (g.max_connections_per_remote ≡ pos (from_host hostname h s.live))
    pub low :
        (h : String)
        → 0 < from_host hostname h s.live
        → g.min_connections_per_remote ≤ℤ pos (from_host hostname h s.live)
    low_host :
        s.live ≢ []
        → (g.min_connections_per_remote ≡ pos 100000)
          ⊎ ((h : String) × (g.min_connections_per_remote ≡ pos (from_host hostname h s.live)))
    none_live :
        s.live ≡ []
        → (g.max_connections_per_remote ≡ pos 0) × (g.min_connections_per_remote ≡ pos 0)

  module _ (s : Serving) (v : Tracks hostname s) (d : Distinct s.listener.remotes) where
    abbrev m : Dict ℤ
    m = s.listener.remotes
