-- ===== src/Download/Fetch.antt =====
-- Download and Remove of releases/download/downloader.go, with the files that they move and remove.
use Prim.Native.String.{◌++◌ as concat}
use go_o11y.Prelude.{String, Option, none, some, [], if◌then◌else◌, get, put, delete}
use go_o11y.Errors.{Err, ok, err, text, wrap}
use go_o11y.Span.{Span}
use go_o11y.Download.{Outside, Downloader, Disk, download_file, is_cached, target_path}

module _ (o : Outside) where
  -- os.Rename of a regular file, of its failure and of the content of the file.
  unfoldable pub rename_with :
      Option Err → Option String → String → String → Disk → Option Err × Disk
  rename_with (some e) c old target s = (some e, s)
  rename_with none none old target s = (some (text "no such file"), s)
  rename_with none (some c) old target s =
      (none, record s { files = put target c (delete old s.files) })

  unfoldable pub rename : String → String → Disk → Option Err × Disk
  unfolding rename_with
  rename old target s = rename_with (o.rename_fault old target) (get old s.files) old target s

  -- os.Remove of a regular file.
  unfoldable pub remove_file : String → Disk → Option Err × Disk
  remove_file path s = elim (o.remove_fault path) [
    | some e ↦ (some e, s)
    | none ↦ (none, record s { files = delete path s.files })
  ]

  -- The deferred function: half-downloaded files are removed, the temporary one first.
  unfoldable pub clean_up : String → String → Option Err × Disk → Option Err × Disk
  unfolding remove_file
  clean_up target tmp (none, s) = (none, s)
  clean_up target tmp (some e, s) = (some e, (remove_file target (remove_file tmp s).1).1)

  unfoldable pub after_file : Option Err → Disk → Option Err × Disk → Option Err × Disk
  after_file (some e) s rest = (some e, s)
  after_file none s rest = rest

  unfoldable pub fetch : Downloader → String → String → String → Disk → Option Err × Disk
  unfolding download_file rename after_file
  fetch d url target tmp s =
      let (e, s') = download_file o d url tmp s in after_file e s' (rename tmp target s')

  unfoldable pub tmp_of : String → String
  tmp_of target = concat target ".tmp"

  -- Download of a parsed URL: its error, its calls on the span of the context, and the disk. Without
  -- an error it returns the path of the target.
  unfoldable pub download_url : Downloader → String → String → Disk → Option Err × Span × Disk
  unfolding is_cached clean_up fetch tmp_of
  download_url d url target s =
      let (cached, calls) = is_cached o target s in
      if cached
      then (none, calls, s)
      else (let out = clean_up target (tmp_of target) (fetch d url target (tmp_of target) s) in
          (out.0, calls, out.1))

  -- Download
  unfoldable pub download : Downloader → String → Disk → String × Option Err × Span × Disk
  unfolding target_path download_url
  download d raw_url s = elim (o.http.parse_url raw_url) [
    | err e ↦ ("", some (wrap "cannot parse URL" e), [], s)
    | ok u ↦
        let target = target_path o d u in
        let (e, calls, s') = download_url d (o.http.url_text u) target s in
        (elim e [ none ↦ target | some f ↦ "" ], e, calls, s')
  ]

  -- Remove: os.Remove reports each failure as a PathError, and so as none.
  unfoldable pub remove : Downloader → String → Disk → Option Err × Disk
  unfolding target_path remove_file
  remove d raw_url s = elim (o.http.parse_url raw_url) [
    | err e ↦ (some (wrap "cannot parse URL" e), s)
    | ok u ↦ (none, (remove_file (target_path o d u) s).1)
  ]
