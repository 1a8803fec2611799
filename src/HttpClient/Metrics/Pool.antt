-- ===== src/HttpClient/Metrics/Pool.antt =====
-- The estimate of the idle connections (httpclient/metrics/metrics.go).
use go_o11y.Prelude.{
  ◌≡◌, ◌≢◌, ap, refl, sym, ◌∙◌, inl, inr, Bool-cases, arith, ℕ, String, true, false, Option, none,
  some, List, [], ◌∷◌, is_some, if◌then◌else◌,
}
use go_o11y.Prelude.Int.{ℤ, pos, negsuc, ◌+ℤ◌}
use go_o11y.Prelude.Partial.{◌>>=◌}
use go_o11y.HttpClient.Metrics.{Metrics, TracedRequest, GotConnInfo, with_tracer}
use go_o11y.HttpClient.Metrics.Hooks.{
  TraceEvent, get_conn, got_conn, put_idle_conn, got_con, on_event, on_events,
}

-- What an event adds to the estimate, for a request whose connection was asked for.
abbrev pub change : TraceEvent → ℤ
change (got_conn info now) = if info.reused then negsuc 0 else pos 0
change (put_idle_conn e) = if is_some e then pos 0 else pos 1
change _ = pos 0

-- The state after a part of a hook that changes the estimate by `d`.
pub record Kept (d : ℤ) (r t : TracedRequest) : Type 0 where
  pub provider : t.metrics.has_provider ≡ true
  pub con : is_some t.con ≡ true
  pub pool : t.metrics.pool_available ≡ r.metrics.pool_available +ℤ d

add_zero_ℤ : (a : ℤ) → a +ℤ pos 0 ≡ a
add_zero_ℤ a = ground arith

-- The sum of what the events add.
abbrev pub total : List TraceEvent → ℤ
total [] = pos 0
total (e ∷ es) = change e +ℤ total es

add_assoc_ℤ : (a b c : ℤ) → a +ℤ b +ℤ c ≡ a +ℤ (b +ℤ c)
add_assoc_ℤ a b c = ground arith

abbrev pub pool_available : TracedRequest → Option ℤ
pool_available r = some r.metrics.pool_available

-- What the hooks of a request come to.
abbrev Reached : ℤ → TracedRequest → Option TracedRequest → Type 0
Reached d r none = ⊥
Reached d r (some t) = Kept d r t

Reached-add :
    (d e : ℤ) (r t : TracedRequest)
    → Kept d r t
    → (o : Option TracedRequest) → Reached e t o
    → Reached (d +ℤ e) r o
Reached-add d e r t k none b = b
Reached-add d e r t k (some u) b = record {
  provider = b.provider;
  con = b.con;
  pool = b.pool ∙ ap (λ n. n +ℤ e) k.pool ∙ add_assoc_ℤ r.metrics.pool_available d e;
}

Reached-bind :
    (d e : ℤ) (r : TracedRequest) (o : Option TracedRequest)
    (f : TracedRequest → Option TracedRequest)
    → Reached d r o
    → ((t : TracedRequest)
        → t.metrics.has_provider ≡ true
        → is_some t.con ≡ true
        → Reached e t (f t))
    → Reached (d +ℤ e) r (o >>= f)
Reached-bind d e r none f a b = a
Reached-bind d e r (some t) f a b = Reached-add d e r t a (f t) (b t a.provider a.con)

module _ (decimal : ℕ → String) where
  module _ (r : TracedRequest) (provider : r.metrics.has_provider ≡ true)
      (con : is_some r.con ≡ true) where
    got_con-ne-none : (info : GotConnInfo) (now : ℕ) → got_con decimal info now r ≢ none
    unfolding got_con
    got_con-ne-none info now q = ground arith

    got_con-pool_new :
        (info : GotConnInfo) (now : ℕ) (t : TracedRequest)
        → info.reused ≡ false
        → got_con decimal info now r ≡ some t
        → t.metrics.pool_available ≡ r.metrics.pool_available
    unfolding got_con
    got_con-pool_new info now t h q = ground arith

    got_con-pool_reused :
        (info : GotConnInfo) (now : ℕ) (t : TracedRequest)
        → info.reused ≡ true
        → got_con decimal info now r ≡ some t
        → t.metrics.pool_available ≡ r.metrics.pool_available +ℤ negsuc 0
    unfolding got_con
    got_con-pool_reused info now t h q = ground arith

    got_con-Kept :
        (info : GotConnInfo) (now : ℕ) (t : TracedRequest)
        → got_con decimal info now r ≡ some t
        → (t.metrics.has_provider ≡ true) × (is_some t.con ≡ true)
    unfolding got_con
    got_con-Kept info now t q = (ground arith, ground arith)

    on_event-ne-none : (e : TraceEvent) → on_event decimal e r ≢ none
    unfolding on_event
    on_event-ne-none (got_conn info now) q = got_con-ne-none info now q
    on_event-ne-none _ q = ground arith

    on_event-Kept :
        (e : TraceEvent) (t : TracedRequest) → on_event decimal e r ≡ some t → Kept (change e) r t
    unfolding on_event
    on_event-Kept (got_conn info now) t q =
        let k = got_con-Kept info now t q in
        record {
          provider = k.0;
          con = k.1;
          pool = elim (Bool-cases info.reused) [
            | inl h ↦ rw h (got_con-pool_reused info now t h q)
            | inr h ↦
                rw h (got_con-pool_new info now t h q ∙ sym (add_zero_ℤ r.metrics.pool_available))
          ];
        }
    on_event-Kept _ t q = record {
      provider = ground arith;
      con = ground arith;
      pool = ground arith;
    }

  event-Reached :
      (e : TraceEvent) (r : TracedRequest)
      → r.metrics.has_provider ≡ true
      → is_some r.con ≡ true
      → (o : Option TracedRequest) → on_event decimal e r ≡ o
      → Reached (change e) r o
  event-Reached e r p c none q = on_event-ne-none r p c e q
  event-Reached e r p c (some t) q = on_event-Kept r p c e t q

  events-Reached :
      (es : List TraceEvent) (r : TracedRequest)
      → r.metrics.has_provider ≡ true
      → is_some r.con ≡ true
      → Reached (total es) r (on_events decimal es r)
  unfolding on_events
  events-Reached [] r p c = record {
    provider = p;
    con = c;
    pool = sym (add_zero_ℤ r.metrics.pool_available);
  }
  events-Reached (e ∷ es) r p c =
      Reached-bind (change e) (total es) r (on_event decimal e r) (on_events decimal es)
        (event-Reached e r p c (on_event decimal e r) refl) (events-Reached es)

  pool_of :
      (d : ℤ) (r : TracedRequest) (o : Option TracedRequest)
      → Reached d r o
      → (o >>= pool_available) ≡ some (r.metrics.pool_available +ℤ d)
  pool_of d r none a = absurd a
  pool_of d r (some t) a = ap some a.pool

  -- The hooks of a request that begin with asking for a connection, with a metrics provider: none of
  -- them panics, in whatever order and number they follow, and the estimate of idle connections is
  -- lowered by one for each connection that is reused, raised by one for each that is put back
  -- without an error, and changed by nothing else.
  pub on_events-pool :
      (m : Metrics) (route host : String) (now : ℕ) (es : List TraceEvent)
      → m.has_provider ≡ true
      → (on_events decimal (get_conn host now ∷ es) (with_tracer m route) >>= pool_available)
        ≡ some (m.pool_available +ℤ total es)
  unfolding on_events on_event with_tracer
  on_events-pool m route host now es p =
      pool_of (total es) _ (on_events decimal es _) (events-Reached es _ p refl)
