-- ===== src/Examples/Downloads.antt =====
-- A download from a server that fails once.
use Prim.Native.String.{◌++◌ as concat}
use go_o11y.Prelude.{
  ◌≡◌, refl, sym, ap, ◌∙◌, ℕ, zero, suc, String, Bool, true, false, Option, none, some, List, [],
  ◌∷◌, ◌++◌, get, put, Dict, length,
}
use go_o11y.Errors.{Err, ok, text, find, var, deadline_exceeded}
use go_o11y.HttpClient.Config.{Client}
use go_o11y.HttpClient.World.{Env}
use go_o11y.Download.{Outside, Downloader, Disk, Partial, plain_downloader}
use go_o11y.Download.Fetch.{download_url}
use go_o11y.Examples.Http.{serving, fresh, policies}
use go_o11y.Examples.Retrying.{retrying}

-- The first body ends with the deadline, after a part of it.
abbrev server : Env
server = record (serving []) {
  round_trip = λ sent req. ok (record {
    status_code = 200;
    header = [];
    body = elim (length sent) [
      | zero ↦ record { content = "ha"; fault = some (var deadline_exceeded) }
      | suc n ↦ record { content = "hall"; fault = none }
    ];
  });
}

abbrev outside : Outside
outside = record {
  http = server;
  policies = policies;
  user_agent_of = λ n. n;
  retry = λ limit. retrying 3;
  abs = λ p. ok p;
  join = λ d p. concat d p;
  is_dir = λ p. false;
  stat_fault = λ p. none;
  mkdir_fault = λ p. none;
  open_fault = λ p. none;
  close_fault = none;
  rename_fault = λ p q. none;
  remove_fault = λ p. none;
  truncate_fault = λ w. none;
  seek_fault = λ w. none;
  wrote = λ c. (c, none);
}

abbrev downloader : Downloader
downloader = plain_downloader outside 0 "/d"

abbrev disk : Disk
disk = record { files = ("/d/other", "x") ∷ []; world = fresh }

-- The second attempt starts with an empty file.
download_twice :
    let out = download_url outside downloader "http://s/f" "/d/f" disk in
    (out.0 ≡ none) × (out.2.files ≡ ("/d/other", "x") ∷ ("/d/f", "hall") ∷ [])
unfolding download_url plain_downloader go_o11y.HttpClient.Call.call
    go_o11y.HttpClient.Call.valid_call go_o11y.HttpClient.Call.retry_request
    go_o11y.HttpClient.Request.validate go_o11y.HttpClient.Request.new_request
    go_o11y.HttpClient.Request.success_decoder go_o11y.HttpClient.Request.with_timeout
    go_o11y.HttpClient.Request.get_decoder go_o11y.HttpClient.Request.put_decoder
    go_o11y.HttpClient.Status.done_retrying go_o11y.HttpClient.Status.extract_http_error
    go_o11y.HttpClient.Attempt.attempt go_o11y.HttpClient.Attempt.send
    go_o11y.HttpClient.Attempt.on_response go_o11y.HttpClient.Attempt.good_response
    go_o11y.HttpClient.Attempt.decode_body go_o11y.HttpClient.Config.new_client
    go_o11y.HttpClient.Build.new_request_fn retrying find get put go_o11y.Closer.error_handler
    go_o11y.Errors.err_is go_o11y.Download.download_request go_o11y.Prelude.delete
download_twice = (refl, refl)
