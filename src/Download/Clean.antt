-- ===== src/Download/Clean.antt =====
-- What a download leaves on the disk (Download of releases/download/downloader.go).
use go_o11y.Prelude.{◌≡◌, String, true, false, Option, none, some, get, str_eq}
use go_o11y.Errors.{Err}
use go_o11y.Span.{Span}
use go_o11y.Download.{Outside, Downloader, Disk, is_cached}
use go_o11y.Download.Fetch.{tmp_of}
use go_o11y.Download.Stored.{Stored}

module _ (o : Outside) (d : Downloader) (url target : String) where
  -- The file at any other path is as it was.
  abbrev pub Keeps : Disk → Disk → Type 0
  Keeps s t =
      (j : String)
      → str_eq target j ≡ false
      → str_eq (tmp_of o target) j ≡ false
      → get j t.files ≡ get j s.files

  -- After an error the cleanup has removed both files, if removing does not fail.
  abbrev pub Gone : Disk → Type 0
  Gone s = (get target s.files ≡ none) × (get (tmp_of o target) s.files ≡ none)

  -- The three ends of a download.
  pub data Ends (s : Disk) : Option Err × Span × Disk → Type 0 where
    cached :
        {out : Option Err × Span × Disk}
        → (is_cached o target s).0 ≡ true
        → out.0 ≡ none
        → out.2 ≡ s
        → Ends s out
    stored :
        {out : Option Err × Span × Disk} → out.0 ≡ none → Stored o d url target out.2 → Ends s out
    failed : {out : Option Err × Span × Disk} (e : Err) → out.0 ≡ some e → Gone out.2 → Ends s out
