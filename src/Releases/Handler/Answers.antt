-- ===== src/Releases/Handler/Answers.antt =====
-- What the handler of release requests answers (releases/release/handler.go).
use go_o11y.Prelude.{◌≡◌, ℕ, String, Bool, Option, none, some}
use go_o11y.HttpClient.World.{World}
use go_o11y.Span.{Span}
use go_o11y.Cache.{Cache}
use go_o11y.Releases.{Requirements, Release, validate}
use go_o11y.Releases.S3.{Outside}
use go_o11y.Releases.Versions.{ReleaseList, lookup}
use go_o11y.Releases.Listed.{Listed}
use go_o11y.Releases.Handler.{HandlerConfig, chosen_version}

module _ {C : Type 0} (cache : Cache C (Option Release)) (o : Outside)
    (matches : String → Bool) where
  -- What stands behind an answer with a release: the list, and the lookup of the version that was
  -- asked for or chosen.
  record Behind (cfg : HandlerConfig C) (now : ℕ) (rq : Requirements) (r : Release) : Type 0 where
    pub valid : validate matches rq ≡ none
    pub before : ReleaseList C
    pub after : ReleaseList C
    pub listing : cfg.list ≡ some before
    pub answered :
        lookup cache o now
          (record rq { version = chosen_version cfg.resolver rq.version before })
          before
        ≡ some (some r, none, after)
