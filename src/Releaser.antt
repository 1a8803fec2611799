-- ===== src/Releaser.antt =====
-- The publishing of releases to S3 (releases/releaser/releaser.go).
pub mod Uploads
pub mod Lines
pub mod RoundTrip
use Prim.Native.String.{◌++◌ as concat}
use go_o11y.Prelude.{
  String, Bool, false, not, Option, none, some, List, [], ◌∷◌, ◌++◌, str_eq, or_else, if◌then◌else◌,
  Dict, get, put,
}
use go_o11y.Errors.{Err, text}
use go_o11y.Closer.{error_handler}
use go_o11y.Baggage.Prefixes.{trim_prefix}

-- A call that filepath.Walk makes.
pub record Visit : Type 0 where
  pub path : String
  pub is_dir : Bool
  pub walk_error : Option Err

-- s3.PutObjectInput, with all that is read of the body.
pub record Upload : Type 0 where
  pub bucket : String
  pub key : String
  pub body : String
  pub content_encoding : Option String
  pub content_type : Option String
  pub tagging : Option String

-- What is used of other packages: the calls of filepath.Walk for a path, Join and ToSlash of
-- path/filepath, the failures of the calls of package os, what io.Copy reads of a file with a
-- content, compress/gzip, the hexadecimal SHA-256 sum, Encode of url.Values, and the error of
-- Upload, which comes after the uploads that were made.
pub record Outside : Type 0 where
  pub visits : String → Dict String → List Visit
  pub join : List String → String
  pub to_slash : String → String
  pub separator : String
  pub open_fault : String → Option Err
  pub close_fault : String → Option Err
  pub write_fault : String → Option Err
  pub read : String → String → String × Option Err
  pub gzip : String → String
  pub sum : String → String
  pub encode : Dict String → String
  pub upload_fault : List Upload → Upload → Option Err

-- A filter of the files sees the path; what it sees of the file's info is a part of it.
pub record PublishParameters : Type 0 where
  pub path : String
  pub bucket : String
  pub app : String
  pub version : String
  pub include_filter : Option (String → Bool)
  pub tags : Dict String

pub record ReleaseParameters : Type 0 where
  pub bucket : String
  pub app : String
  pub version : String
  pub environment : String
  pub tags : Dict String

-- The regular files, and the objects that were uploaded, in order.
pub record Bucket : Type 0 where
  pub files : Dict String
  pub uploads : List Upload

abbrev content_encoding_gzip : String
content_encoding_gzip = "gzip"

abbrev content_type_octet_stream : String
content_type_octet_stream = "application/octet-stream"

-- The walk stops at an error.
unfoldable pub unless_error {ℓ} : {S : Type ℓ} → Option Err × S → Option Err × S → Option Err × S
unless_error (some e, s) rest = (some e, s)
unless_error (none, s) rest = rest

abbrev pub excluded : Option (String → Bool) → String → Bool
excluded none path = false
excluded (some f) path = not (f path)

module _ {ℓ} {S : Type ℓ} where
  -- The function that walkFiles gives to filepath.Walk.
  unfoldable pub visit :
      Option (String → Bool) → (String → S → Option Err × S) → Visit → S → Option Err × S
  visit include observe v s = elim v.walk_error [
    | some e ↦ (some e, s)
    | none ↦
        if v.is_dir
        then (none, s)
        else if excluded include v.path
        then (none, s)
        else observe v.path s
  ]

  -- walkFiles, over the calls that filepath.Walk makes.
  unfoldable pub walk_files :
      Option (String → Bool) → (String → S → Option Err × S) → List Visit → S → Option Err × S
  unfolding visit unless_error
  walk_files include observe [] s = (none, s)
  walk_files include observe (v ∷ vs) s =
      let out = visit include observe v s in unless_error out (walk_files include observe vs out.1)

module _ (o : Outside) where
  unfoldable pub file_key : String → String → String → String
  file_key app version file = o.to_slash (o.join (app ∷ version ∷ file ∷ []))

  unfoldable pub encode_tags : Dict String → Option String
  encode_tags [] = none
  encode_tags (t ∷ tags) = some (o.encode (t ∷ tags))

  -- An upload: an object is made of it unless it fails.
  unfoldable pub upload : Upload → Bucket → Option Err × Bucket
  upload u b = elim (o.upload_fault b.uploads u) [
    | some e ↦ (some e, b)
    | none ↦ (none, record b { uploads = b.uploads ++ u ∷ [] })
  ]

  -- os.Open, with the content of the file.
  unfoldable pub open_file : String → Dict String → Option Err × String
  open_file path files = elim (get path files) [
    | none ↦ (some (text "no such file"), "")
    | some c ↦ (o.open_fault path, c)
  ]

  unfoldable pub binary_upload : PublishParameters → String → String → Upload
  unfolding file_key encode_tags
  binary_upload p path part = record {
    bucket = p.bucket;
    key = file_key p.app p.version (trim_prefix path p.path);
    body = o.gzip part;
    content_encoding = some content_encoding_gzip;
    content_type = some content_type_octet_stream;
    tagging = encode_tags p.tags;
  }

  -- The part after os.Open: the pipe is closed after the part that could be read, so that this is
  -- uploaded. An error of the upload replaces that of reading, and that of closing counts last.
  unfoldable pub send_binary : PublishParameters → String → String → Bucket → Option Err × Bucket
  unfolding upload binary_upload
  send_binary p path content b =
      let (part, copied) = o.read path content in
      let (failed, b') = upload (binary_upload p path part) b in
      (error_handler (o.close_fault path) (or_else failed copied), b')

  -- The observer of uploadBinaries.
  unfoldable pub observe_binary : PublishParameters → String → Bucket → Option Err × Bucket
  unfolding open_file send_binary
  observe_binary p path b =
      let (e, content) = open_file path b.files in
      elim e [ some f ↦ (some f, b) | none ↦ send_binary p path content b ]

  unfoldable pub upload_binaries : PublishParameters → Bucket → Option Err × Bucket
  unfolding walk_files observe_binary
  upload_binaries p b = walk_files p.include_filter (observe_binary p) (o.visits p.path b.files) b

  -- The name of a file in checksums.txt.
  unfoldable pub file_name : PublishParameters → String → String
  file_name p path = o.to_slash (trim_prefix (trim_prefix path p.path) o.separator)

  -- A line of checksums.txt.
  unfoldable pub checksum_line : PublishParameters → String → String → String
  unfolding file_name
  checksum_line p path part = concat (o.sum part) (concat " *" (file_name p path))

  -- The observer of uploadChecksums, with what it writes.
  unfoldable pub observe_checksum :
      PublishParameters → Dict String → String → String → Option Err × String
  unfolding open_file checksum_line
  observe_checksum p files path checksums =
      let (e, content) = open_file path files in
      let (part, copied) = o.read path content in
      elim (or_else e copied) [
        | some f ↦ (some f, checksums)
        | none ↦ (none, concat checksums (concat (checksum_line p path part) "\n"))
      ]

  unfoldable pub checksums_upload : PublishParameters → String → Upload
  unfolding file_key
  checksums_upload p checksums = record {
    bucket = p.bucket;
    key = file_key p.app p.version "checksums.txt";
    body = checksums;
    content_encoding = none;
    content_type = none;
    tagging = none;
  }

  unfoldable pub checksums_path : PublishParameters → String
  checksums_path p = o.join (p.path ∷ "checksums.txt" ∷ [])

  -- The part of uploadChecksums after the walk.
  unfoldable pub write_checksums :
      PublishParameters → Option Err × String → Bucket → Option Err × Bucket
  unfolding upload checksums_upload checksums_path
  write_checksums p (some e, checksums) b = (some e, b)
  write_checksums p (none, checksums) b =
      let file = checksums_path p in
      elim (o.write_fault file) [
        | some e ↦ (some e, b)
        | none ↦
            upload (checksums_upload p checksums) (record b { files = put file checksums b.files })
      ]

  unfoldable pub upload_checksums : PublishParameters → Bucket → Option Err × Bucket
  unfolding walk_files observe_checksum write_checksums
  upload_checksums p b =
      write_checksums p
        (walk_files p.include_filter (observe_checksum p b.files) (o.visits p.path b.files) "") b

  -- Publish
  unfoldable pub publish : PublishParameters → Bucket → Option Err × Bucket
  unfolding upload_binaries upload_checksums unless_error
  publish p b = let out = upload_binaries p b in unless_error out (upload_checksums p out.1)

  unfoldable pub release_upload : ReleaseParameters → Upload
  unfolding encode_tags
  release_upload p =
      let environment = if str_eq p.environment "" then "release" else p.environment in
      record {
        bucket = p.bucket;
        key = o.to_slash (o.join (p.app ∷ concat environment ".txt" ∷ []));
        body = p.version;
        content_encoding = none;
        content_type = none;
        tagging = encode_tags p.tags;
      }

  -- Release
  unfoldable pub release : ReleaseParameters → Bucket → Option Err × Bucket
  unfolding upload release_upload
  release p b = upload (release_upload p) b
