-- ===== src/Releases/Handler.antt =====
-- The handler of release requests (releases/release/handler.go).
pub mod Answers
use go_o11y.Prelude.{ℕ, String, Bool, Option, none, some, [], ◌∷◌, str_eq, is_some, if◌then◌else◌}
use go_o11y.Errors.{Err, Result, ok, err, err_is}
use go_o11y.Span.{Span, add_field, text}
use go_o11y.Cache.{Cache}
use go_o11y.Releases.{Requirements, Release, validate, err_not_found}
use go_o11y.Releases.S3.{Outside}
use go_o11y.Releases.Versions.{ReleaseList, latest, latest_for, lookup}

-- `resolver` is the release type that the optional resolver gives for the context.
pub record HandlerConfig (C : Type 0) : Type 0 where
  pub list : Option (ReleaseList C)
  pub resolver : Option String

-- The JSON of a response: a message, or the release, which may be nil.
pub data Content : Type 0 where
  message : Content
  found : Option Release → Content

pub record Response : Type 0 where
  pub status : ℕ
  pub content : Content

-- The response, the calls on the request's span, and the list.
abbrev pub Handled : Type 0 → Type 0
Handled C = Response × Span × Option (ReleaseList C)

unfoldable pub resolver_fields : Option String → String → Span
resolver_fields none version = []
resolver_fields (some t) version =
    if str_eq version "" then add_field "release_type" (text t) ∷ [] else []

-- The switch on the error of Lookup.
unfoldable pub respond : Option Release → Option Err → Response
respond r e =
    if err_is e err_not_found
    then record { status = 404; content = message }
    else if is_some e
    then record { status = 500; content = message }
    else record { status = 200; content = found r }

unfoldable pub refuse : ℕ → Response
refuse status = record { status = status; content = message }

module _ {C : Type 0} where
  -- The version that a request without one asks for.
  unfoldable pub chosen_version : Option String → String → ReleaseList C → String
  chosen_version resolver version l =
      if str_eq version ""
      then elim resolver [ none ↦ latest l | some t ↦ latest_for t l ]
      else version

  unfoldable pub respond_to :
      Span → Option (Option Release × Option Err × ReleaseList C) → Option (Handled C)
  unfolding respond
  respond_to calls none = none
  respond_to calls (some (r, e, l)) = some (respond r e, calls, some l)

module _ {C : Type 0} (cache : Cache C (Option Release)) (o : Outside)
    (matches : String → Bool) where
  -- The handler once the query has been bound and is valid.
  unfoldable pub handle_valid : HandlerConfig C → ℕ → Requirements → Option (Handled C)
  unfolding refuse respond_to chosen_version resolver_fields
  handle_valid cfg now rq = elim cfg.list [
    | none ↦ some (refuse 410, [], none)
    | some l ↦
        respond_to (resolver_fields cfg.resolver rq.version)
          (lookup cache o now (record rq { version = chosen_version cfg.resolver rq.version l }) l)
  ]

  -- Handler, at the time `now`. The query is bound by gin: `bound` is what BindQuery gives. A panic
  -- is `none`.
  unfoldable pub handle : HandlerConfig C → ℕ → Result Requirements → Option (Handled C)
  unfolding handle_valid refuse
  handle cfg now (err e) = some (refuse 400, [], cfg.list)
  handle cfg now (ok rq) =
      if is_some (validate matches rq)
      then some (refuse 400, [], cfg.list)
      else handle_valid cfg now rq
