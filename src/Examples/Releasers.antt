-- ===== src/Examples/Releasers.antt =====
-- Two binaries are published and released, and found; and a line whose checksum names an architecture.
use Prim.Native.Char.{Char, code}
use Prim.Native.String.append
use Prim.Native.String.{[] as empty, ◌∷◌ as prepend, ◌++◌ as concat}
use text.Mathlib.TextLemmas
use go_o11y.Prelude.{
  ◌≡◌, ◌≢◌, refl, sym, ap, ◌∙◌, arith, String, Bool, true, false, not, ◌&&◌, Option, none, some,
  List, [], ◌∷◌, ◌++◌, All, ◌==◌, if◌then◌else◌,
}
use go_o11y.Errors.{ok}
use go_o11y.Releases.{Requirements, Release}
use go_o11y.Releases.S3.{decode_release, add_to_first}
use go_o11y.Releaser.{Outside, Bucket, Visit, PublishParameters, ReleaseParameters}
use go_o11y.Releaser.Uploads.{unlines, lines, paths_of}
use go_o11y.Releaser.Lines.{has_code}
use go_o11y.Releaser.RoundTrip.{LineScanner}

-- A scanner whose buffer fits every line.
unfoldable scan : String → List String
scan empty = []
scan (prepend c s) =
    let rest = scan s in if code c == 10 then "" ∷ rest else add_to_first (prepend c empty) rest

scan-line_end :
    (l t : String) → has_code 10 l ≡ false → scan (concat l (prepend "\n" t)) ≡ l ∷ scan t
unfolding scan
scan-line_end empty t h = ap scan (append.nil (prepend "\n" t))
scan-line_end (prepend c l) t h =
    let part = λ (b : Bool) (rest : List String).
      if b then "" ∷ rest else add_to_first (prepend c empty) rest in
    let other : (code c == 10) ≡ false = ground (arith, h) in
    ap scan (append.cons c l (prepend "\n" t))
    ∙ ap (part (code c == 10)) (scan-line_end l t (ground (arith, h)))
    ∙ ap (λ b. part b (l ∷ scan t)) other
    ∙ ap (λ x. x ∷ scan t) (append.cons c empty l ∙ ap (prepend c) (append.nil l))

line_end : (l t : String) → concat (concat l "\n") t ≡ concat l (prepend "\n" t)
line_end l t =
    TextLemmas.append_assoc l "\n" t
    ∙ ap (concat l) (append.cons "\n" empty t ∙ ap (prepend "\n") (append.nil t))

scan-unlines : (ls : List String) → All (λ l. has_code 10 l ≡ false) ls → scan (unlines ls) ≡ ls
unfolding scan
scan-unlines [] h = refl
scan-unlines (l ∷ ls) h =
    ap scan (line_end l (unlines ls))
    ∙ scan-line_end l (unlines ls) h.0
    ∙ ap (λ x. l ∷ x) (scan-unlines ls h.1)

scan-word :
    (c : Char) (s : String)
    → has_code 10 (prepend c s) ≡ false
    → scan (prepend c s) ≡ prepend c s ∷ []
unfolding scan
scan-word c empty h =
    let other : (code c == 10) ≡ false = ground (arith, h) in
    ap (λ b. if b then "" ∷ [] else prepend c empty ∷ []) other
scan-word c (prepend d s) h =
    let part = λ (b : Bool) (rest : List String).
      if b then "" ∷ rest else add_to_first (prepend c empty) rest in
    let other : (code c == 10) ≡ false = ground (arith, h) in
    ap (part (code c == 10)) (scan-word d s (ground (arith, h)))
    ∙ ap (λ b. part b (prepend d s ∷ [])) other
    ∙ ap (λ x. x ∷ [])
        (append.cons c empty (prepend d s) ∙ ap (prepend c) (append.nil (prepend d s)))

scan-nonempty : (l : String) → l ≢ "" → has_code 10 l ≡ false → scan l ≡ l ∷ []
scan-nonempty empty n h = absurd (n refl)
scan-nonempty (prepend c s) n h = scan-word c s h

scanner : LineScanner scan
scanner = record {
  fits = λ l. true;
  scan_lines = λ ls h. scan-unlines ls (firsts ls h);
  scan_line = λ l n h. scan-nonempty l n h.0;
}
  where
    firsts :
        (ls : List String)
        → All (λ l. (has_code 10 l ≡ false) × (has_code 13 l ≡ false) × (true ≡ true)) ls
        → All (λ l. has_code 10 l ≡ false) ls
    firsts [] h = tt
    firsts (l ∷ ls) h = (h.0.0, firsts ls h.1)

abbrev pub joined : List String → String
joined [] = ""
joined (s ∷ []) = s
joined (s ∷ t ∷ l) = concat s (concat "/" (joined (t ∷ l)))

abbrev visit_at : String → Bool → Visit
visit_at path is_dir = record { path = path; is_dir = is_dir; walk_error = none }

abbrev pub outside : Outside
outside = record {
  visits = λ path files.
      visit_at "bin" true
      ∷ visit_at "bin/linux" true
      ∷ visit_at "bin/linux/amd64" false
      ∷ visit_at "bin/linux/arm64" false
      ∷ visit_at "bin/README" false
      ∷ [];
  join = joined;
  to_slash = λ s. s;
  separator = "/";
  open_fault = λ path. none;
  close_fault = λ path. none;
  write_fault = λ path. none;
  read = λ path content. (content, none);
  gzip = λ s. concat "gz " s;
  sum = λ s. "5e";
  encode = λ tags. "";
  upload_fault = λ uploads u. none;
}

abbrev params : PublishParameters
params = record {
  path = "bin";
  bucket = "b";
  app = "app";
  version = "1.0";
  include_filter = some (λ path. has_code 47 path && not (has_code 82 path));
  tags = [];
}

abbrev released : ReleaseParameters
released = record { bucket = "b"; app = "app"; version = "1.0"; environment = ""; tags = [] }

abbrev bucket : Bucket
bucket = record {
  files = ("bin/linux/amd64", "x") ∷ ("bin/linux/arm64", "y") ∷ ("bin/README", "z") ∷ [];
  uploads = [];
}

abbrev arm : Requirements
arm = record { version = "1.0"; platform = "linux"; arch = "arm64" }

found_arm :
    decode_release "base" arm
      (scan (unlines (lines outside params bucket.files (paths_of outside params bucket))))
    ≡ some (ok (record { url = "base/1.0/linux/arm64"; checksum = "5e"; version = "1.0" }))
unfolding decode_release scan go_o11y.Releaser.checksum_line go_o11y.Baggage.Prefixes.trim_prefix
    go_o11y.Prelude.contains go_o11y.Releases.S3.release_of go_o11y.Releases.S3.split_spaces
found_arm = refl

-- A request for 386 gets the binary for amd64, since the checksum of that has these digits.
found_other :
    decode_release "base"
      (record { version = "1.0"; platform = "linux"; arch = "386" })
      ("c386e *linux/amd64" ∷ "d41d8 *linux/386" ∷ [])
    ≡ some (ok (record { url = "base/1.0/linux/amd64"; checksum = "c386e"; version = "1.0" }))
unfolding decode_release go_o11y.Prelude.contains go_o11y.Releases.S3.release_of
    go_o11y.Releases.S3.split_spaces
found_other = refl
