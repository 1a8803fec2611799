-- ===== src/Examples/Releases.antt =====
-- Releases from a server with one version.
use go_o11y.Prelude.{
  ◌≡◌, refl, ℕ, String, Bool, true, not, Option, none, some, List, [], ◌∷◌, str_eq, if◌then◌else◌,
  is_some,
}
use go_o11y.Errors.{Err, ok}
use go_o11y.HttpClient.World.{Env}
use go_o11y.Releases.{Requirements, Release}
use go_o11y.Releases.Keys.{has_bar}
use go_o11y.Releases.S3.{Outside}
use go_o11y.Releases.Versions.{ReleaseList, empty_list, store_versions, keys}
use go_o11y.Releases.Refresh.{store_versions-read_versions, read_versions, put_each, returned}
use go_o11y.Releases.Listed.{Listed}
use go_o11y.Releases.Handler.{Handled, HandlerConfig, handle, message}
use go_o11y.Examples.Http.{serving, fresh, policies}
use go_o11y.Examples.Slots.{slot, Slot}

abbrev body_of : String → String
body_of path = if str_eq path "release" then "1.0-ab" else "c0ffee *linux/amd64/agent"

abbrev server : Env
server = record (serving []) {
  round_trip = λ sent req. ok (record {
    status_code = 200;
    header = [];
    body = record { content = body_of req.url.path; fault = none };
  });
}

abbrev first_param : List String → String
first_param [] = ""
first_param (p ∷ ps) = p

abbrev outside : Outside
outside = record {
  http = server;
  policies = policies;
  user_agent_of = λ n. n;
  sprintf = λ f ps. first_param ps;
  scan = λ t. t ∷ [];
}

abbrev new : ReleaseList (Slot (Option Release))
new = empty_list slot outside "agent" "" "" [] fresh

abbrev refreshed_list : ReleaseList (Slot (Option Release))
refreshed_list = (store_versions outside new).1

store_versions-read_versions_example :
    let r = read_versions outside new.s3_list (keys new.cached_version) new.world in
    let out = store_versions outside new in
    (out.0 ≡ returned r.1)
    × (out.1.cached_version ≡ put_each r.0 new.cached_version)
    × (out.1.ready ≡ (if is_some r.1 then new.ready else true))
    × (out.1.world.sent ≡ r.2.sent)
unfolding empty_list
store_versions-read_versions_example = store_versions-read_versions outside new refl

abbrev barless : String → Bool
barless v = not (has_bar v)

abbrev wanted : Requirements
wanted = record { version = ""; platform = "linux"; arch = "amd64" }

abbrev config : HandlerConfig (Slot (Option Release))
config = record { list = some refreshed_list; resolver = none }

abbrev handled : Option (Handled (Slot (Option Release))) → Handled (Slot (Option Release))
handled none = (record { status = 0; content = message }, [], none)
handled (some h) = h

abbrev answered : Handled (Slot (Option Release))
answered = handled (handle slot outside barless config 0 (ok wanted))

abbrev release : Release
release = record { url = "/1.0-ab/linux/amd64/agent"; checksum = "c0ffee"; version = "1.0-ab" }
