-- ===== src/Server/Tracking/Counts.antt =====
-- What the counts of the listener mean (httpserver/tracking.go).
use go_o11y.Prelude.{
  ◌≡◌, ap, ◌∙◌, arith, ℕ, zero, suc, ◌+◌, String, Option, none, some, List, [], ◌∷◌, ◌++◌, Dict,
  get, put, get-put, get-delete, length, length-append, str_eq, eq_iff, if◌then◌else◌,
}
use go_o11y.Prelude.Int.{ℤ, pos, ◌+ℤ◌, ◌-ℤ◌}
use go_o11y.Errors.{Err, ok, err}
use go_o11y.Server.Tracking.{
  Conn, TrackedListener, new_listener, value_at, counted, discounted, accept, close_conn,
}

-- The listener with the connections that are accepted and not closed, and the number accepted.
pub record Serving : Type 0 where
  pub listener : TrackedListener
  pub live : List Conn
  pub total : ℕ

module _ (hostname : String → String) where
  -- How many connections of a list are from a host.
  abbrev pub from_host : String → List Conn → ℕ
  from_host h [] = 0
  from_host h (c ∷ cs) =
      let rest = from_host h cs in if str_eq (hostname c.remote_addr) h then suc rest else rest

  from_host-append :
      (h : String) (a b : List Conn) → from_host h (a ++ b) ≡ from_host h a + from_host h b
  from_host-append h [] b = omega arith
  from_host-append h (c ∷ a) b = ground (arith, from_host-append h a b)

  -- The server accepts connections and closes each of them once at most.
  pub data Step (s : Serving) : Serving → Type 0 where
    accepts :
        (c : Conn)
        → Step s (record s {
          listener = (accept hostname (ok c) s.listener).1;
          live = c ∷ s.live;
          total = suc s.total;
        })
    refuses : (e : Err) → Step s (record s { listener = (accept hostname (err e) s.listener).1 })
    closes :
        (closed : Conn → Option Err) (before after : List Conn) (c : Conn)
        → s.live ≡ before ++ c ∷ after
        → Step s (record s {
          listener = (close_conn hostname closed c s.listener).1;
          live = before ++ after;
        })

  pub data Run (s : Serving) : Serving → Type 0 where
    here : Run s s
    next : {t u : Serving} → Run s t → Step t u → Run s u

  -- The entry for a host with so many connections.
  abbrev pub entry : ℕ → Option ℤ
  entry zero = none
  entry (suc n) = some (pos (suc n))

  pub record Tracks (s : Serving) : Type 0 where
    pub accepted : s.listener.accepted ≡ pos s.total
    pub active : s.listener.active_conn ≡ pos (length s.live)
    pub remotes : (h : String) → get h s.listener.remotes ≡ entry (from_host h s.live)

  get-counted :
      (k h : String) (m : Dict ℤ) (n : ℕ)
      → get k m ≡ entry n
      → get h (counted k m) ≡ (if str_eq k h then entry (suc n) else get h m)
  unfolding counted
  get-counted k h m zero e = ground (arith, get-put k h (value_at k m +ℤ pos 1) m)
  get-counted k h m (suc n) e = ground (arith, get-put k h (value_at k m +ℤ pos 1) m)

  get-discounted :
      (k h : String) (m : Dict ℤ) (n : ℕ)
      → get k m ≡ entry (suc n)
      → get h (discounted k m) ≡ (if str_eq k h then entry n else get h m)
  unfolding discounted
  get-discounted k h m zero e =
      let m' = put k (value_at k m -ℤ pos 1) m in
      ground (
        arith,
        eq_iff k k,
        get-put k k (value_at k m -ℤ pos 1) m,
        get-put k h (value_at k m -ℤ pos 1) m,
        get-delete k h m',
      )
  get-discounted k h m (suc n) e =
      let m' = put k (value_at k m -ℤ pos 1) m in
      ground (
        arith,
        eq_iff k k,
        get-put k k (value_at k m -ℤ pos 1) m,
        get-put k h (value_at k m -ℤ pos 1) m,
        get-delete k h m',
      )

  Step-Tracks : {s t : Serving} → Step s t → Tracks s → Tracks t
  unfolding accept close_conn
  Step-Tracks {s} (accepts c) v =
      let k = hostname c.remote_addr in
      record {
        accepted = ground arith;
        active = ground arith;
        remotes = λ h. ground (
          arith,
          eq_iff k h,
          get-counted k h s.listener.remotes (from_host k s.live) (v.remotes k),
          v.remotes h,
        );
      }
  Step-Tracks {s} (refuses e) v = record {
    accepted = v.accepted;
    active = v.active;
    remotes = v.remotes;
  }
  Step-Tracks {s} (closes closed before after c e) v =
      let k = hostname c.remote_addr in
      let there = λ (h : String). ap (from_host h) e ∙ from_host-append h before (c ∷ after) in
      record {
        accepted = v.accepted;
        active =
            ground
              (arith, ap length e, length-append before (c ∷ after), length-append before after);
        remotes = λ h. ground (
          arith,
          eq_iff k h,
          eq_iff k k,
          there h,
          there k,
          from_host-append h before after,
          from_host-append k before after,
          get-discounted k h s.listener.remotes (from_host k (before ++ after)),
          v.remotes h,
          v.remotes k,
        );
      }

  -- A listener that has accepted no connection.
  abbrev pub opened : String → Serving
  opened name = record { listener = new_listener name; live = []; total = 0 }

  pub Run-Tracks : {s t : Serving} → Run s t → Tracks s → Tracks t
  Run-Tracks here v = v
  Run-Tracks (next r p) v = Step-Tracks p (Run-Tracks r v)
