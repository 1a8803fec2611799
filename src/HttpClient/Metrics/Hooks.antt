-- ===== src/HttpClient/Metrics/Hooks.antt =====
-- gotCon and the other hooks that WithTracer sets (httpclient/metrics/metrics.go). `time.Now` and what
-- net/http reports are the arguments of an event.
use Prim.Native.String.{◌++◌ as concat}
use go_o11y.Prelude.{
  ℕ, String, Bool, true, false, Option, none, some, List, [], ◌∷◌, ◌++◌, is_some, ◌==◌,
  if◌then◌else◌,
}
use go_o11y.Prelude.Int.{ℤ, pos, ◌-ℤ◌}
use go_o11y.Prelude.Partial.{◌>>=◌}
use go_o11y.Errors.{Err}
use go_o11y.HttpClient.Metrics.{
  TracedRequest, Con, GotConnInfo, ConTags, flag, time, measure, add_field, add_pool, got_reused,
  got_new, between, tag_pairs, tag_list, add_tag_fields,
}

-- The delay, the tags and the state before what gotCon reports at its end.
abbrev fresh_tags : ConTags
fresh_tags = record { reused = false; starved = false; idle = false; delayed = false }

unfoldable pub got_parts :
    (ℕ → String) → GotConnInfo → Con → ℕ → TracedRequest → Option (ℤ × ConTags × TracedRequest)
unfolding got_reused got_new between
got_parts decimal info c now r =
    let delay = between now c.get_at in
    if info.reused then (do out ← got_reused info delay r; some (delay, out.0, out.1)) else do
      r1 ← got_new decimal (r.common_tags ++ concat "host:" c.host ∷ []) c r
      some (delay -ℤ between c.dial_done_at c.dial_start_at, fresh_tags, r1)

-- gotCon
unfoldable pub got_con : (ℕ → String) → GotConnInfo → ℕ → TracedRequest → Option TracedRequest
unfolding got_parts measure add_field add_tag_fields tag_pairs tag_list
got_con decimal info now r = elim r.con [
  | none ↦ some (add_field "req.got_conn.no_con" (flag true) r)
  | some c ↦ (do
    out ← got_parts decimal info c now (record r { con_done_at = now })
    let pairs = tag_pairs out.1
    measure "httpclient.con.wait" out.0
        ((r.common_tags ++ concat "host:" c.host ∷ []) ++ tag_list pairs)
        (add_field "req.con_wait" (time out.0) (add_tag_fields pairs out.2)))
]

-- A hook with what it is told, and the time at which it runs.
pub data TraceEvent : Type 0 where
  get_conn : String → ℕ → TraceEvent
  got_conn : GotConnInfo → ℕ → TraceEvent
  put_idle_conn : Option Err → TraceEvent
  got_first_response_byte : ℕ → TraceEvent
  dns_start : String → ℕ → TraceEvent
  dns_done : ℕ → Bool → Option Err → ℕ → TraceEvent
  connect_start : ℕ → TraceEvent
  connect_done : ℕ → TraceEvent
  tls_handshake_start : ℕ → TraceEvent
  tls_handshake_done : ℕ → TraceEvent
  wrote_request : ℕ → TraceEvent

-- An assignment through `r.con`.
abbrev on_con : (Con → Con) → TracedRequest → Option TracedRequest
on_con f r = elim r.con [ none ↦ none | some c ↦ some (record r { con = some (f c) }) ]

abbrev done_dns : ℕ → Bool → Option Err → ℕ → Con → Con
done_dns count coalesced e now c = elim c.dns [
  | none ↦ c
  | some d ↦ record c {
    dns =
        some (record d {
          done_at = now;
          addr_count = count;
          coalesced = coalesced;
          error = is_some e;
        });
  }
]

unfoldable pub on_event : (ℕ → String) → TraceEvent → TracedRequest → Option TracedRequest
unfolding got_con measure add_field add_pool between
on_event decimal (get_conn host now) r = some (record r {
  con = some (record {
    host = host;
    get_at = now;
    dial_start_at = 0;
    dial_done_at = 0;
    tls_start_at = 0;
    tls_done_at = 0;
    dns = none;
  });
})
on_event decimal (got_conn info now) r = got_con decimal info now r
on_event decimal (put_idle_conn e) r = if is_some e then some r else some (add_pool (pos 1) r)
on_event decimal (got_first_response_byte now) r = if r.request_done_at == 0 then some r else do
  let d = between now r.request_done_at
  r1 ← measure "httpclient.req.first_byte" d r.common_tags r
  some (add_field "req.first_byte" (time d) r1)
on_event decimal (dns_start host now) r =
    on_con
      (λ c. record c {
        dns = some (record {
          host = host;
          start_at = now;
          done_at = 0;
          addr_count = 0;
          coalesced = false;
          error = false;
        });
      })
      r
on_event decimal (dns_done count coalesced e now) r = on_con (done_dns count coalesced e now) r
on_event decimal (connect_start now) r = on_con (λ c. record c { dial_start_at = now }) r
on_event decimal (connect_done now) r = on_con (λ c. record c { dial_done_at = now }) r
on_event decimal (tls_handshake_start now) r = on_con (λ c. record c { tls_start_at = now }) r
on_event decimal (tls_handshake_done now) r = on_con (λ c. record c { tls_done_at = now }) r
on_event decimal (wrote_request now) r =
    let d = between now r.con_done_at in
    measure "httpclient.req.wrote" d r.common_tags
      (add_field "req.wrote_request" (time d) (record r { request_done_at = now }))

-- The hooks that run for one request, in order.
unfoldable pub on_events : (ℕ → String) → List TraceEvent → TracedRequest → Option TracedRequest
unfolding on_event
on_events decimal [] r = some r
on_events decimal (e ∷ es) r = on_event decimal e r >>= on_events decimal es
