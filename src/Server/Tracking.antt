-- ===== src/Server/Tracking.antt =====
-- The listener that counts its connections (httpserver/tracking.go). Every method that touches the
-- counts holds the lock, so they are taken one at a time. `hostname` is Hostname of a url.URL with
-- the remote address as its Host.
pub mod Counts
pub mod Gauges
use go_o11y.Prelude.{
  ℕ, suc, String, Bool, true, false, Option, none, some, List, [], ◌∷◌, Dict, get, put, delete, ltb,
  if◌then◌else◌,
}
use go_o11y.Prelude.Int.{ℤ, pos, ◌+ℤ◌, ◌-ℤ◌, ltb_ℤ, eqb_ℤ}
use go_o11y.Errors.{Err, Result, ok, err}

-- A net.Conn, told apart by its number.
pub record Conn : Type 0 where
  pub id : ℕ
  pub remote_addr : String

pub record TrackedListener : Type 0 where
  pub name : String
  pub accepted : ℤ
  pub active_conn : ℤ
  pub remotes : Dict ℤ

-- The listener as New of httpserver.go makes it.
unfoldable pub new_listener : String → TrackedListener
new_listener name = record { name = name; accepted = pos 0; active_conn = pos 0; remotes = [] }

-- A map access: zero for a missing key.
unfoldable pub value_at : String → Dict ℤ → ℤ
value_at k m = elim (get k m) [ none ↦ pos 0 | some v ↦ v ]

-- The two branches of trackConn on the map.
unfoldable pub counted : String → Dict ℤ → Dict ℤ
unfolding value_at
counted host m = put host (value_at host m +ℤ pos 1) m

unfoldable pub discounted : String → Dict ℤ → Dict ℤ
unfolding value_at
discounted host m =
    let m' = put host (value_at host m -ℤ pos 1) m in
    if eqb_ℤ (value_at host m') (pos 0) then delete host m' else m'

-- trackConn
unfoldable pub track_conn : (String → String) → Conn → Bool → TrackedListener → TrackedListener
track_conn hostname c true l = record l {
  accepted = l.accepted +ℤ pos 1;
  active_conn = l.active_conn +ℤ pos 1;
  remotes = counted (hostname c.remote_addr) l.remotes;
}
track_conn hostname c false l = record l {
  active_conn = l.active_conn -ℤ pos 1;
  remotes = discounted (hostname c.remote_addr) l.remotes;
}

-- Accept, of what the listener inside returns.
unfoldable pub accept :
    (String → String) → Result Conn → TrackedListener → Result Conn × TrackedListener
unfolding track_conn
accept hostname (err e) l = (err e, l)
accept hostname (ok c) l = (ok c, track_conn hostname c true l)

-- Close; `closed` is the error of the connection's own Close.
unfoldable pub close_conn :
    (String → String) → (Conn → Option Err) → Conn → TrackedListener → Option Err × TrackedListener
unfolding track_conn
close_conn hostname closed c l = (closed c, track_conn hostname c false l)

-- The loop of Gauges, from the values so far.
unfoldable pub extremes : Dict ℤ → ℤ → ℤ → ℤ × ℤ
extremes [] high low = (high, low)
extremes ((k, c) ∷ m) high low =
    extremes m (if ltb_ℤ high c then c else high) (if ltb_ℤ c low then c else low)

unfoldable pub entries : Dict ℤ → ℕ
entries [] = 0
entries (e ∷ m) = suc (entries m)

pub record ListenerGauges : Type 0 where
  pub number_of_remotes : ℕ
  pub total_connections : ℤ
  pub active_connections : ℤ
  pub max_connections_per_remote : ℤ
  pub min_connections_per_remote : ℤ

-- Gauges
unfoldable pub gauges : TrackedListener → ListenerGauges
unfolding extremes entries
gauges l =
    let (high, low) =
      if ltb_ℤ (pos 0) l.active_conn
      then extremes l.remotes (pos 0) (pos 100000)
      else (pos 0, pos 0) in
    record {
      number_of_remotes = entries l.remotes;
      total_connections = l.accepted;
      active_connections = l.active_conn;
      max_connections_per_remote = high;
      min_connections_per_remote = low;
    }
