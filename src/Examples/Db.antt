-- ===== src/Examples/Db.antt =====
-- Database errors and transactions, at concrete inputs.
use go_o11y.Prelude.{
  ◌≡◌, refl, suc, ◌+◌, ◌≤◌, ◌<◌, true, false, none, some, [], ◌∷◌, ◌++◌, ◌==◌, ◌||◌, str_eq,
  is_some, if◌then◌else◌,
}
use go_o11y.Errors.{PgError, pg, var, err_is, is_warning}
use go_o11y.Errors.Laws.{wrap_all}
use go_o11y.Db.Errors.{
  err_nop, err_constrained, err_exception, err_canceled, map_error, bad_conn, pq_error,
  driver_bad_conn, map_bad_con,
}
use go_o11y.Db.Errors.Codes.{map_error-codes}
use go_o11y.Db.Tx.{TxEnv, returned, panicked, begin, body, commit, transaction, with_tx, is_retried}
use go_o11y.Db.Tx.Atomic.{
  begun, committed, rollbacks, succeeded, needs_rollback, transaction-counts, with_tx-atomic,
}

abbrev duplicate : PgError
duplicate = record { code = "23505"; message = "duplicate key"; detail = "" }

map_error-codes_example :
    let e = (map_error (some (wrap_all ("insert" ∷ []) (pg duplicate)))).1 in
    ((map_error (some (wrap_all ("insert" ∷ []) (pg duplicate)))).0 ≡ true)
    × (err_is e err_constrained ≡ str_eq duplicate.code "23503")
    × (err_is e err_exception ≡ str_eq duplicate.code "P0001")
    × (err_is e err_canceled ≡ str_eq duplicate.code "57014")
    × (err_is e err_nop ≡ str_eq duplicate.code "23505")
    × (is_warning e ≡ (str_eq duplicate.code "57014" || str_eq duplicate.code "23505"))
    × (bad_conn e ≡ false)
    × (pq_error e ≡ some duplicate)
    × ((map_error e).1 ≡ e)
map_error-codes_example = map_error-codes ("insert" ∷ []) duplicate

-- A connection that is bad until the second transaction is begun.
abbrev flaky : TxEnv
flaky = record {
  begin_txx = λ l. if begun l == 0 then some (var driver_bad_conn) else none;
  run_body = λ l. returned none;
  ctx_err = λ l. none;
  commit_tx = λ l. none;
  rollback_tx = λ l. none;
}

with_tx-atomic_example :
    (committed (with_tx flaky []).1 ≡ committed [] + succeeded (with_tx flaky []).0)
    × (begun [] < begun (with_tx flaky []).1)
    × (begun (with_tx flaky []).1 ≤ begun [] + 3)
    × (is_retried (with_tx flaky []).0 ≡ true → begun (with_tx flaky []).1 ≡ begun [] + 3)
with_tx-atomic_example = with_tx-atomic flaky []

with_tx_retries :
    with_tx flaky []
    ≡ (returned none, begin (some (var driver_bad_conn)) ∷ begin none ∷ body ∷ commit none ∷ [])
unfolding with_tx err_is transaction bad_conn map_bad_con
with_tx_retries = refl

-- A function that panics.
abbrev panicking : TxEnv
panicking = record flaky { begin_txx = λ l. none; run_body = λ l. panicked "boom" }

transaction-counts_example :
    let l1 = [] ++ begin (panicking.begin_txx []) ∷ [] in
    (committed (transaction panicking []).1 ≡ committed [] + succeeded (transaction panicking []).0)
    × (begun (transaction panicking []).1 ≡ suc (begun []))
    × (rollbacks (transaction panicking []).1
        ≡ rollbacks []
          + (if is_some (panicking.begin_txx [])
              then 0
              else needs_rollback panicking (panicking.run_body l1) (l1 ++ body ∷ [])))
transaction-counts_example = transaction-counts panicking []
