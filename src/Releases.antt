-- ===== src/Releases.antt =====
-- The metadata of releases (releases/release): what Requirements, its key in the cache and Release of
-- list.go and list_s3.go are.
pub mod S3
pub mod Versions
pub mod Refresh
pub mod Keys
pub mod Listed
pub mod Cached
pub mod Handler
use Prim.Native.String.{◌++◌ as concat}
use go_o11y.Prelude.{
  String, Bool, not, ◌&&◌, Option, none, some, [], str_eq, if◌then◌else◌, Dict, put,
}
use go_o11y.Errors.{Err, Var, warning, plain, text}

abbrev pub err_not_found : Var
err_not_found = warning 20

abbrev pub err_list_version_not_ready : Var
err_list_version_not_ready = plain 20

pub record Requirements : Type 0 where
  pub version : String
  pub platform : String
  pub arch : String

pub record Release : Type 0 where
  pub url : String
  pub checksum : String
  pub version : String

-- Validate; `matches` is the test of downloadVersionRegexp.
unfoldable pub validate : (String → Bool) → Requirements → Option Err
validate matches d =
    if not (str_eq d.version "") && not (matches d.version)
    then some (text "version is invalid")
    else if str_eq d.platform ""
    then some (text "platform is required")
    else if str_eq d.arch ""
    then some (text "arch is required")
    else none

-- QueryParams: the fields under their `form` tags.
unfoldable pub query_params : Requirements → Dict String
query_params d = put "arch" d.arch (put "os" d.platform (put "version" d.version []))

-- makeKey
unfoldable pub make_key : Requirements → String
make_key d = concat d.version (concat "|" (concat d.platform (concat "|" d.arch)))
