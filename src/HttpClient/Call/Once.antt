-- ===== src/HttpClient/Call/Once.antt =====
-- Calls that send nothing, or one request (httpclient/httpclient.go).
use go_o11y.HttpClient.Status.{http_error_of, done_retrying}
use go_o11y.Prelude.{
  sym, inr, ap, inl, ◌∙◌, ◌≢◌, ◌≡◌, refl, arith, ℕ, suc, ◌+◌, ◌<◌, String, Option, none, some, List,
  [], ◌++◌, true, false, if_both,
}
use go_o11y.Errors.{Err, Result, find}
use go_o11y.Backoff.Laws.{Retries-permanent}
use go_o11y.HttpClient.Config.{Client}
use go_o11y.HttpClient.Request.{Request}
use go_o11y.HttpClient.World.{HttpRequest, Env, World}
use go_o11y.HttpClient.Attempt.{attempt, should_backoff, ten_seconds}
use go_o11y.HttpClient.Attempt.Window.{attempt-backoff}
use go_o11y.HttpClient.Call.{done_retrying, retry_request, call, Policies, max_elapsed}
use go_o11y.HttpClient.Call.Cases.{call_cases}
use go_o11y.HttpClient.Call.Trace.{call-Run, get_last?}
use mathlib.Core.List.{append_cancel_left, append-nil}

-- An outcome of a call from `w` that sent nothing and failed.
abbrev pub NothingSent : World → Option Err × World → Type 0
NothingSent w o = (o.1.sent ≡ w.sent) × (o.0 ≢ none)

done_retrying-ne-none : (e : Option Err) → e ≢ none → done_retrying e ≢ none
unfolding done_retrying http_error_of
done_retrying-ne-none none h q = absurd (h refl)
done_retrying-ne-none (some e) h q = ground arith

module _ (env : Env) (policies : Policies) (c : Client) (r : Request) (w : World) where
  should_backoff-counter :
      (should_backoff env c (record w { attempt_counter = 0 })).0 ≡ (should_backoff env c w).0
  unfolding should_backoff
  should_backoff-counter = ground arith

  backed_off :
      (name : String) (built : Result HttpRequest)
      → (should_backoff env c w).0 ≡ true
      → NothingSent w (retry_request env policies c r name built w)
  unfolding retry_request find
  backed_off name built h =
      let v = record w { attempt_counter = 0 } in
      let op = attempt env c r name built in
      let a = attempt-backoff env c r name built v (should_backoff-counter ∙ h) in
      let run = (policies (max_elapsed c r)).run op v in
      let out =
        Retries-permanent op {s = v} (λ i. (a.0 i, (op v).1)) refl
          ((policies (max_elapsed c r)).run_lem op v) in
      if_both {A = Option Err × World} (NothingSent w) r.retry
        (ap (λ (u : World). u.sent) out.1 ∙ a.1, λ q. cc (out.0, q)) (a.1, λ q. cc (a.0, q))

  -- While the client backs off, a call sends nothing and fails.
  call_backed_off : (should_backoff env c w).0 ≡ true → NothingSent w (call env policies c r w)
  call_backed_off h =
      call_cases env policies c r w (NothingSent w) (λ e. (refl, λ q. cc))
        λ name built.
          let a = backed_off name built h in
          (a.0, done_retrying-ne-none (retry_request env policies c r name built w).0 a.1)

-- After a call whose last response had status 429, and while the reading of the clock that follows
-- is less than ten seconds after the reading before it, every other call by the same client, of any
-- request and under any policy, sends nothing and fails, if the client backs off at all.
pub call-call_429 :
    (env : Env) (policies others : Policies) (c : Client) (r next : Request) (w : World)
    (l : List ℕ)
    → c.no_rate_limit_backoff ≡ false
    → (call env policies c r w).1.statuses ≡ w.statuses ++ l
    → get_last? l ≡ some 429
    → ((n : ℕ)
        → (call env policies c r w).1.readings ≡ suc n
        → env.now (suc n) < env.now n + ten_seconds)
    → NothingSent (call env policies c r w).1 (call env others c next (call env policies c r w).1)
unfolding should_backoff
call-call_429 env policies others c r next w l on added last soon =
    call_backed_off env others c next (call env policies c r w).1
      (elim (call-Run env policies c r w) [
        | inl (same, _) ↦ no_status (
            append_cancel_left w.statuses l []
              (sym added ∙ (ap (λ (u : World). u.statuses) same ∙ sym (append-nil w.statuses))))
        | inr (m, run) ↦
            let e : l ≡ m = append_cancel_left w.statuses l m (sym added ∙ run.statuses) in
            let (n, p, q) = run.window (sym (ap get_last? e) ∙ last) in ground (arith, soon n q)
      ])
  where
    no_status : l ≡ [] → (should_backoff env c (call env policies c r w).1).0 ≡ true
    no_status e = let h : get_last? [] ≡ some 429 = sym (ap get_last? e) ∙ last in cc h
