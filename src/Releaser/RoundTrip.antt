-- ===== src/Releaser/RoundTrip.antt =====
-- What was published and released is found by the list of releases (releases/releaser/releaser.go and
-- releases/release/list_s3.go).
use Prim.Native.String.{◌++◌ as concat}
use go_o11y.Prelude.{
  ◌≡◌, ◌≢◌, String, Bool, true, false, ◌&&◌, Option, some, List, [], ◌∷◌, ◌++◌, All, contains,
  if◌then◌else◌, Dict,
}
use go_o11y.Errors.{Result, ok, err, var}
use go_o11y.Releases.{Requirements, Release, err_not_found}
use go_o11y.Releaser.{Outside, PublishParameters, file_name}
use go_o11y.Releaser.Uploads.{unlines, read_of, line_of}
use go_o11y.Releaser.Lines.{has_code}

-- A text within one line.
abbrev pub IsLine : (String → Bool) → String → Type 0
IsLine fits s = (has_code 10 s ≡ false) × (has_code 13 s ≡ false) × (fits s ≡ true)

-- What is relied on of a bufio.Scanner: it gives the lines of a text that ends its lines with "\n",
-- if its buffer fits each, and a text without "\n" as the one line that it is.
pub record LineScanner (scan : String → List String) : Type 0 where
  pub fits : String → Bool
  pub scan_lines : (ls : List String) → All (IsLine fits) ls → scan (unlines ls) ≡ ls
  pub scan_line : (l : String) → l ≢ "" → IsLine fits l → scan l ≡ l ∷ []

module _ (o : Outside) (p : PublishParameters) where
  -- The release of the first file whose line names the platform and the architecture.
  abbrev pub first_named :
      String → Requirements → Dict String → List String → Option (Result Release)
  first_named base_url rq files [] = some (err (var err_not_found))
  first_named base_url rq files (path ∷ paths) =
      let line = line_of o p files path in
      let rest = first_named base_url rq files paths in
      if contains line rq.platform && contains line rq.arch
      then some (
          ok (record {
            url =
                concat base_url (concat "/" (concat rq.version (concat "/" (file_name o p path))));
            checksum = o.sum (read_of o p files path);
            version = rq.version;
          }))
      else rest

  -- The name of a file has no space and no end of a line, and its line fits the buffer.
  abbrev pub IsNamed : (String → Bool) → Dict String → String → Type 0
  IsNamed fits files path =
      (has_code 32 (file_name o p path) ≡ false)
      × (has_code 10 (file_name o p path) ≡ false)
      × (has_code 13 (file_name o p path) ≡ false)
      × (fits (line_of o p files path) ≡ true)

  -- The sums are hexadecimal.
  abbrev pub IsPlain : (String → String) → Type 0
  IsPlain sum =
      (s : String)
      → (has_code 32 (sum s) ≡ false)
        × (has_code 10 (sum s) ≡ false)
        × (has_code 13 (sum s) ≡ false)
