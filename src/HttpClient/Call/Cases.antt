-- ===== src/HttpClient/Call/Cases.antt =====
-- The ways through Call (httpclient/httpclient.go).
use Prim.Native.String.{◌++◌ as concat}
use go_o11y.Prelude.{String, Option, none, some}
use go_o11y.Errors.{Err, Result, err, ok}
use go_o11y.HttpClient.Config.{Client}
use go_o11y.HttpClient.Request.{Request, validate}
use go_o11y.HttpClient.World.{HttpRequest, Env, World}
use go_o11y.HttpClient.Build.{new_request_fn}
use go_o11y.HttpClient.Call.{
  Url, done_retrying, retry_request, call, Policies, parsed_call, valid_call, span_name, url_of,
  with_query,
}

module _ (env : Env) (policies : Policies) (c : Client) (r : Request) (w : World) where
  -- What Call does is what it does after its validation and parsing, or nothing.
  pub call_cases :
      (P : Option Err × World → Type 0)
      → ((e : Err) → P (some e, w))
      → ((name : String) (built : Result HttpRequest)
          → P (
            done_retrying (retry_request env policies c r name built w).0,
            (retry_request env policies c r name built w).1,
          ))
      → P (call env policies c r w)
  unfolding call
  call_cases P refused tried = elim (validate r) as (λ v. P (valid_call env policies c r v w)) [
    | some e ↦ unfold valid_call in refused e
    | none ↦ unfold valid_call in parsed (env.parse_url (concat c.base_url (url_of r)))
  ]
    where
      parsed : (u : Result Url) → P (parsed_call env policies c r u w)
      parsed (err e) = unfold parsed_call in refused e
      parsed (ok u) =
          unfold parsed_call in tried (span_name c r) (new_request_fn env c r (with_query env r u))
