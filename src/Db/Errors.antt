-- ===== src/Db/Errors.antt =====
-- The mapping of database errors (db/error.go).
pub mod Codes
use Prim.Native.String.{◌++◌ as concat}
use go_o11y.Prelude.{ℕ, String, Bool, true, false, Option, none, some, ◌==◌, str_eq, if◌then◌else◌}
use go_o11y.Errors.{
  Err, Var, PgError, Result, ok, err, plain, warning, var, db, find, as_pg, as_db, err_is,
}

abbrev pub err_nop : Var
err_nop = warning 2

abbrev pub err_constrained : Var
err_constrained = plain 5

abbrev pub err_exception : Var
err_exception = plain 6

abbrev pub err_canceled : Var
err_canceled = warning 3

abbrev pub err_bad_conn : Var
err_bad_conn = warning 4

-- driver.ErrBadConn
abbrev pub driver_bad_conn : Var
driver_bad_conn = plain 4

-- The sentinel that mapError chooses by the SQLSTATE.
unfoldable pub sentinel_of : String → Option Var
sentinel_of code =
    if str_eq code "23503"
    then some err_constrained
    else if str_eq code "P0001"
    then some err_exception
    else if str_eq code "57014"
    then some err_canceled
    else if str_eq code "23505"
    then some err_nop
    else none

-- mapBadCon
unfoldable pub map_bad_con : Option Err → Bool × Option Err
map_bad_con e = if err_is e driver_bad_conn then (true, some (var err_bad_conn)) else (false, e)

-- The PgError that errors.As finds.
unfoldable pub pg_of : Option Err → Option PgError
unfolding find
pg_of none = none
pg_of (some e) = find e as_pg

-- mapError
unfoldable pub map_error : Option Err → Bool × Option Err
unfolding map_bad_con pg_of sentinel_of
map_error e =
    let (bad, mapped) = map_bad_con e in
    if bad
    then (true, mapped)
    else elim (pg_of e) [ some p ↦ (true, some (db p (sentinel_of p.code))) | none ↦ (false, e) ]

-- mapExecErrors, of the error and of what RowsAffected of the result gives.
unfoldable pub map_exec_errors : Option Err → Result ℕ → Option Err
unfolding map_error
map_exec_errors e affected = elim (map_error e).1 [
  | some x ↦ some x
  | none ↦ elim affected [
    | err x ↦ some x
    | ok rows ↦ if rows == 0 then some (var err_nop) else none
  ]
]

-- badConn
unfoldable pub bad_conn : Option Err → Bool
bad_conn e = err_is e err_bad_conn

-- PqError: the PgError of the Error that errors.As finds.
unfoldable pub pq_error : Option Err → Option PgError
unfolding find
pq_error none = none
pq_error (some e) = elim (find e as_db) [ none ↦ none | some (p, s) ↦ some p ]
