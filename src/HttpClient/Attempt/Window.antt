-- ===== src/HttpClient/Attempt/Window.antt =====
-- The backing off of ten seconds after a 429 (httpclient/httpclient.go).
use go_o11y.Prelude.{◌≡◌, arith, suc, String, true, some}
use go_o11y.Errors.{var, permanent, Result}
use go_o11y.HttpClient.Config.{Client}
use go_o11y.HttpClient.Request.{Request}
use go_o11y.HttpClient.Status.{err_server_backoff}
use go_o11y.HttpClient.World.{Env, World, HttpRequest}
use go_o11y.HttpClient.Attempt.{should_backoff, attempt}

-- An attempt that backs off sends nothing, and its error ends the retries and has ErrServerBackoff
-- as its content. Only the counters and the span of the attempt are new.
pub attempt-backoff :
    (env : Env) (c : Client) (r : Request) (name : String) (built : Result HttpRequest) (w : World)
    → (should_backoff env c w).0 ≡ true
    → ((attempt env c r name built w).0 ≡ some (permanent (var err_server_backoff)))
      × ((attempt env c r name built w).1.sent ≡ w.sent)
      × ((attempt env c r name built w).1.last429 ≡ w.last429)
      × ((attempt env c r name built w).1.decoded ≡ w.decoded)
      × ((attempt env c r name built w).1.attempt_counter ≡ suc w.attempt_counter)
unfolding attempt should_backoff
attempt-backoff env c r name built w h =
    (ground arith, ground arith, ground arith, ground arith, ground arith)
