-- ===== src/Db/Querier.antt =====
-- unifiedQuerier (db/unified_querier.go) and the named query of eDB and eTx (db/extensions.go), over
-- the results of the wrapped Querier.
use go_o11y.Prelude.{ℕ, Option, none, some, ◌==◌, if◌then◌else◌}
use go_o11y.Errors.{Err, Var, Result, plain, var, wrap, err_is}
use go_o11y.Db.Errors.{err_nop, map_error, map_exec_errors}

-- sql.ErrNoRows
abbrev pub no_rows : Var
no_rows = plain 9

-- ExecContext and NamedExecContext: the error and the affected rows of the wrapped call.
unfoldable pub exec_context : Option Err → Result ℕ → Option Err
exec_context e affected = map_exec_errors e affected

-- GetContext and NamedGetContext: the error of the wrapped call.
unfoldable pub get_context : Option Err → Option Err
get_context e = if err_is e no_rows then some (var err_nop) else (map_error e).1

-- NamedGetContext of eDB and eTx: the error of BindNamed, and what GetContext then gives.
unfoldable pub named_get_context : Option Err → Option Err → Option Err
named_get_context (some e) got = some (wrap "could not map named" e)
named_get_context none got = got

-- SelectContext: the error, and the length of the destination after the call.
unfoldable pub select_context : Option Err → ℕ → Option Err
select_context (some e) n = (map_error (some e)).1
select_context none n = if n == 0 then some (var err_nop) else none
