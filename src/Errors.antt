-- ===== src/Errors.antt =====
-- Go error values, and the standard library's errors.Is and errors.As over the error types of the
-- program: o11y/warning.go, HTTPError of httpclient/httpclient.go and Error of db/error.go.
pub mod Laws
use go_o11y.Prelude.{
  ℕ, String, Bool, true, false, not, ◌&&◌, ◌||◌, Option, none, some, ltb, leb, ◌==◌, or_else,
  if◌then◌else◌,
}

-- The package-level error variables, told apart by a number: `plain` made by errors.New, `warning`
-- by NewWarning.
pub data Var : Type 0 where
  plain : ℕ → Var
  warning : ℕ → Var

abbrev pub err_warning : Var
err_warning = plain 0

abbrev pub canceled : Var
canceled = plain 1

abbrev pub deadline_exceeded : Var
deadline_exceeded = plain 2

pub record HttpError : Type 0 where
  pub method : String
  pub route : String
  pub code : ℕ
  pub attempts : ℕ
  pub done_retrying : Bool

-- What the program reads of a pgconn.PgError.
pub record PgError : Type 0 where
  pub code : String
  pub message : String
  pub detail : String

-- `text` is an error with a message alone, `wrap` is fmt.Errorf with one %w, `join` an error that
-- has Unwrap() []error. `permanent` is backoff.PermanentError, documented to unwrap to its content.
mutual
  pub data Err : Type 0 where
    var : Var → Err
    text : String → Err
    wrap : String → Err → Err
    join : Errs → Err
    all_warning_error : Err → Err
    http : HttpError → Err
    pg : PgError → Err
    db : PgError → Option Var → Err
    url : Err → Err
    permanent : Err → Err

  pub data Errs : Type 0 where
    nil : Errs
    cons : Err → Errs → Errs

-- `==` on the variables.
unfoldable pub same : Var → Var → Bool
same (plain a) (plain b) = a == b
same (warning a) (warning b) = a == b
same (plain a) (warning b) = false
same (warning a) (plain b) = false

-- IsWarningNoUnwrap: the target itself is errWarning.
unfoldable pub is_warning_no_unwrap : Var → Bool
unfolding same
is_warning_no_unwrap t = same t err_warning

-- errors.Is of a variable: a wrapWarnError unwraps to errWarning.
unfoldable pub var_is : Var → Var → Bool
unfolding same
var_is (plain a) t = same (plain a) t
var_is (warning a) t = same (warning a) t || same err_warning t

-- (*HTTPError).Is
unfoldable pub http_is : HttpError → Var → Bool
unfolding is_warning_no_unwrap
http_is e t =
    if is_warning_no_unwrap t
    then (if not e.done_retrying then true else (ltb 400 e.code && leb e.code 404))
    else false

-- (*Error).Is of package db. The target is one of the variables, so errors.Is walks up from it.
unfoldable pub db_is : Option Var → Var → Bool
unfolding is_warning_no_unwrap var_is
db_is none t = false
db_is (some s) t = if is_warning_no_unwrap t then var_is s err_warning else var_is t s

-- errors.Is(err, t): the value itself, its Is method, then what it unwraps to. The method of
-- allWarningError asks each joined error first, and then its whole content.
unfoldable mutual
  unfolding var_is http_is db_is is_warning_no_unwrap

  pub is : Err → Var → Bool
  is (var v) t = var_is v t
  is (text m) t = false
  is (wrap m e) t = is e t
  is (join es) t = is_any es t
  is (all_warning_error e) t = (not (is_warning_no_unwrap t) || joined_are_warnings e) && is e t
  is (http h) t = http_is h t
  is (pg p) t = false
  is (db p s) t = db_is s t
  is (url e) t = is e t
  is (permanent e) t = is e t

  pub is_any : Errs → Var → Bool
  is_any nil t = false
  is_any (cons e es) t = is e t || is_any es t

  -- the loop over Unwrap() []error of the content
  pub joined_are_warnings : Err → Bool
  joined_are_warnings (join es) = every_is_warning es
  joined_are_warnings _ = true

  pub every_is_warning : Errs → Bool
  every_is_warning nil = true
  every_is_warning (cons e es) = is e err_warning && every_is_warning es

-- errors.Is of an `error` that may be nil; the targets never are.
unfoldable pub err_is : Option Err → Var → Bool
unfolding is
err_is none t = false
err_is (some e) t = is e t

-- IsWarning
unfoldable pub is_warning : Option Err → Bool
unfolding err_is
is_warning e = err_is e err_warning

-- DontErrorTrace
unfoldable pub dont_error_trace : Option Err → Bool
unfolding is_warning
dont_error_trace e = is_warning e || err_is e canceled || err_is e deadline_exceeded

-- AllWarning
unfoldable pub all_warning : Option Err → Option Err
all_warning none = none
all_warning (some e) = some (all_warning_error e)

-- errors.As: the first error on the way down that `pick` accepts. The method of allWarningError
-- looks into its content.
unfoldable mutual
  pub find {ℓ} : {A : Type ℓ} → Err → (Err → Option A) → Option A
  find (var v) pick = pick (var v)
  find (text m) pick = pick (text m)
  find (wrap m e) pick = or_else (pick (wrap m e)) (find e pick)
  find (join es) pick = or_else (pick (join es)) (find_any es pick)
  find (all_warning_error e) pick = or_else (pick (all_warning_error e)) (find e pick)
  find (http h) pick = pick (http h)
  find (pg p) pick = pick (pg p)
  find (db p s) pick = pick (db p s)
  find (url e) pick = or_else (pick (url e)) (find e pick)
  find (permanent e) pick = or_else (pick (permanent e)) (find e pick)

  pub find_any {ℓ} : {A : Type ℓ} → Errs → (Err → Option A) → Option A
  find_any nil pick = none
  find_any (cons e es) pick = or_else (find e pick) (find_any es pick)

abbrev pub as_http : Err → Option HttpError
as_http (http h) = some h
as_http _ = none

abbrev pub as_pg : Err → Option PgError
as_pg (pg p) = some p
as_pg _ = none

abbrev pub as_db : Err → Option (PgError × Option Var)
as_db (db p s) = some (p, s)
as_db _ = none

-- The Err field of the *url.Error.
abbrev pub as_url : Err → Option Err
as_url (url e) = some e
as_url _ = none

-- A value and an error, of which one is nil.
pub data Result {ℓ} (A : Type ℓ) : Type ℓ where
  ok : A → Result A
  err : Err → Result A
