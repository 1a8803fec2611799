-- ===== src/Download.antt =====
-- The downloader of releases (releases/download/downloader.go), over the regular files of a disk.
pub mod Fetch
pub mod Attempts
pub mod Stored
pub mod Clean
use Prim.Native.String.{◌++◌ as concat}
use go_o11y.Prelude.{
  ℕ, String, Bool, true, false, not, Option, none, some, List, [], ◌∷◌, ◌==◌, or_else,
  if◌then◌else◌, Dict, get, put, delete,
}
use go_o11y.Errors.{Err, Result, ok, err, text, wrap, permanent, err_is, deadline_exceeded}
use go_o11y.Closer.{error_handler}
use go_o11y.Span.{Span, add_field, fault}
use go_o11y.Backoff.{Retry}
use go_o11y.HttpClient.Config.{Client, new_client}
use go_o11y.HttpClient.Request.{Request, Decoder, new_request, with_timeout, success_decoder}
use go_o11y.HttpClient.World.{Url, Env, World}
use go_o11y.HttpClient.Call.{Policies, call}

pub record Downloader : Type 0 where
  pub dir : String
  pub client : Client
  pub download_timeout : ℕ
  pub download_attempt_timeout : ℕ

-- The regular files with their contents, and the state of the HTTP client.
pub record Disk : Type 0 where
  pub files : Dict String
  pub world : World

-- The file that is downloaded to, while it is: its content, and the state of the HTTP client.
pub record Partial : Type 0 where
  pub content : String
  pub world : World

-- What is used of other packages. `abs` and `join` are of path/filepath. Which paths are directories,
-- and which calls fail, are parameters: `wrote` is what io.Copy writes of a content, with its error,
-- and `retry` backoff.Retry under the policy with a MaxElapsedTime and the context.
pub record Outside : Type 0 where
  pub http : Env
  pub policies : Policies
  pub user_agent_of : String → String
  pub retry : ℕ → Retry Partial
  pub abs : String → Result String
  pub join : String → String → String
  pub is_dir : String → Bool
  pub stat_fault : String → Option Err
  pub mkdir_fault : String → Option Err
  pub open_fault : String → Option Err
  pub close_fault : Option Err
  pub rename_fault : String → String → Option Err
  pub remove_fault : String → Option Err
  pub truncate_fault : World → Option Err
  pub seek_fault : World → Option Err
  pub wrote : String → String × Option Err

-- An Option of NewDownloader.
abbrev pub DownloaderOption : Type 0
DownloaderOption = Downloader → Downloader

-- AttemptTimeout
unfoldable pub attempt_timeout : ℕ → DownloaderOption
attempt_timeout t d = record d { download_attempt_timeout = t }

abbrev with_options : List DownloaderOption → Downloader → Downloader
with_options [] d = d
with_options (o ∷ os) d = with_options os (o d)

unfoldable pub plain_downloader : Outside → ℕ → String → Downloader
plain_downloader o timeout dir = record {
  dir = dir;
  download_timeout = timeout;
  download_attempt_timeout = 0;
  client = new_client o.user_agent_of (record {
    name = "downloader";
    base_url = "";
    auth_header = "";
    auth_token = "";
    accept_type = "";
    timeout = timeout;
    max_connections_per_host = 0;
    user_agent = "";
    transport = none;
    transport_modifier = none;
    tracer = false;
    dial_context = none;
    no_rate_limit_backoff = false;
    disable_w3c_trace_propagation = false;
  });
}

-- NewDownloader
unfoldable pub new_downloader : Outside → ℕ → String → List DownloaderOption → Result Downloader
unfolding plain_downloader
new_downloader o timeout dir opts = elim (o.abs dir) [
  | err e ↦ err (wrap "could not absolutify downloader dir" e)
  | ok d ↦ elim (o.mkdir_fault d) [
    | some e ↦ err (wrap "could not create e2e-test dir" e)
    | none ↦ ok (with_options opts (plain_downloader o timeout d))
  ]
]

module _ (o : Outside) where
  -- targetPath
  unfoldable pub target_path : Downloader → Url → String
  target_path d u = o.join d.dir u.path

  -- isCached, with its calls on the span of the context.
  unfoldable pub is_cached : String → Disk → Bool × Span
  is_cached target s = elim (o.stat_fault target) [
    | some e ↦ (false, add_field "downloader_error" (fault e) ∷ [])
    | none ↦ (
      if o.is_dir target then false else elim (get target s.files) [ none ↦ false | some c ↦ true ],
      [],
    )
  ]

  -- The decoder: io.Copy to the file.
  unfoldable pub copy_decoder : Decoder
  copy_decoder b =
      let (written, e) = o.wrote b.content in
      record {
        written = written ∷ [];
        error = elim (or_else e b.fault) [ none ↦ none | some f ↦ some (wrap "could not write" f) ];
      }

  unfoldable pub timeout_of : Downloader → ℕ
  timeout_of d = if d.download_attempt_timeout == 0 then 30000000000 else d.download_attempt_timeout

  unfoldable pub download_request : Downloader → String → Request
  unfolding timeout_of copy_decoder
  download_request d url =
      new_request "GET" url (with_timeout (timeout_of d) ∷ success_decoder copy_decoder ∷ [])

  -- What was written after the given pieces, as one text.
  unfoldable pub pieces_after : List String → List String → String
  pieces_after (a ∷ old) (b ∷ l) = pieces_after old l
  pieces_after (a ∷ old) [] = ""
  pieces_after [] [] = ""
  pieces_after [] (b ∷ l) = concat b (pieces_after [] l)

  -- clearFile: its error, and the file.
  unfoldable pub clear_file : Partial → Option Err × Partial
  clear_file p = elim (o.truncate_fault p.world) [
    | some e ↦ (some e, p)
    | none ↦ (o.seek_fault p.world, record p { content = "" })
  ]

  permanent_of : Option Err → Option Err
  permanent_of none = none
  permanent_of (some e) = some (permanent e)

  -- The inner `download` after Call. Permanent of no error is documented to be none.
  unfoldable pub after_call : Option Err → Partial → Option Err × Partial
  unfolding clear_file permanent_of
  after_call e p =
      if err_is e deadline_exceeded
      then (let (f, q) = clear_file p in
          elim f [ some g ↦ (some (permanent g), q) | none ↦ (e, q) ])
      else (permanent_of e, p)

  -- The inner `download`.
  unfoldable pub download_once : Downloader → String → Partial → Option Err × Partial
  unfolding after_call pieces_after
  download_once d url p =
      let (e, w) = call o.http o.policies d.client (download_request d url) p.world in
      after_call e
        (record { content = concat p.content (pieces_after p.world.decoded w.decoded); world = w })

  -- downloadFile once the file is open, and empty.
  unfoldable pub fill_file : Downloader → String → String → Disk → Option Err × Disk
  unfolding download_once
  fill_file d url target s =
      let (e, p) =
        (o.retry d.download_timeout).run (download_once d url)
          (record { content = ""; world = s.world }) in
      (
        error_handler o.close_fault
            (elim e [ none ↦ none | some f ↦ some (wrap "could not get URL" f) ]),
        record { files = put target p.content s.files; world = p.world },
      )

  -- The errors before the file is open, or what comes after.
  unfoldable pub after_open : Option Err → Option Err → Disk → Option Err × Disk → Option Err × Disk
  after_open (some e) f s rest = (some (wrap "could not create directory" e), s)
  after_open none (some e) s rest = (some (wrap "could not create file" e), s)
  after_open none none s rest = rest

  -- downloadFile; `mkdir_fault` is that of MkdirAll of the directory of the path.
  unfoldable pub download_file : Downloader → String → String → Disk → Option Err × Disk
  unfolding fill_file after_open
  download_file d url target s =
      after_open (o.mkdir_fault target) (o.open_fault target) s
        (fill_file d url target (record s { files = put target "" s.files }))
