-- ===== src/Db/Tx.antt =====
-- WithTx of TxManager (db/transactions.go). The transaction's log is the state: what the database,
-- the context and the function did may depend on all that happened before.
pub mod Atomic
use go_o11y.Prelude.{
  ℕ, zero, suc, String, Bool, true, false, Option, none, some, List, [], ◌∷◌, ◌++◌, is_some,
  if◌then◌else◌,
}
use go_o11y.Errors.{Err, wrap}
use go_o11y.Db.Errors.{map_bad_con, bad_conn}

-- What happened, with the error that came back.
pub data TxEvent : Type 0 where
  begin : Option Err → TxEvent
  body : TxEvent
  commit : Option Err → TxEvent
  rollback : Option Err → TxEvent
  rollback_error : Err → TxEvent

abbrev pub TxLog : Type 0
TxLog = List TxEvent

-- How a function ended: with an error or nil, or by a panic.
pub data Ended : Type 0 where
  returned : Option Err → Ended
  panicked : String → Ended

-- The database, the context (`ctx_err`) and the function `f` with its mapped errors.
pub record TxEnv : Type 0 where
  pub begin_txx : TxLog → Option Err
  pub run_body : TxLog → Ended
  pub ctx_err : TxLog → Option Err
  pub commit_tx : TxLog → Option Err
  pub rollback_tx : TxLog → Option Err

abbrev log_rollback : Option Err → TxLog
log_rollback none = []
log_rollback (some e) = rollback_error e ∷ []

-- A rollback whose error is only added to the span.
unfoldable pub rolled_back : TxEnv → TxLog → TxLog
rolled_back env l = l ++ (rollback (env.rollback_tx l) ∷ log_rollback (env.rollback_tx l))

commit_error : Option Err → Option Err
commit_error e = elim (map_bad_con e).1 [
  | none ↦ none
  | some x ↦ some (wrap "commit transaction" x)
]

-- The deferred function, when `f` has returned an error or nil.
unfoldable pub finish : TxEnv → Option Err → TxLog → Option Err × TxLog
unfolding rolled_back commit_error
finish env e l =
    if bad_conn e
    then (e, l)
    else if is_some e
    then (if is_some (env.ctx_err l) then (e, l) else (e, rolled_back env l))
    else if is_some (env.ctx_err l)
    then (env.ctx_err l, l)
    else (commit_error (env.commit_tx l), l ++ commit (env.commit_tx l) ∷ [])

-- The deferred function; after a panic the error of the rollback is ignored.
unfoldable pub deferred : TxEnv → Ended → TxLog → Ended × TxLog
unfolding finish
deferred env (panicked p) l = (panicked p, l ++ rollback (env.rollback_tx l) ∷ [])
deferred env (returned e) l = let out = finish env e l in (returned out.0, out.1)

begin_error : Option Err → Option Err
begin_error e = elim (map_bad_con e).1 [ none ↦ none | some x ↦ some (wrap "begin transaction" x) ]

-- The inner `transaction`.
unfoldable pub transaction : TxEnv → TxLog → Ended × TxLog
unfolding deferred begin_error
transaction env l =
    let b = env.begin_txx l in
    let l1 = l ++ begin b ∷ [] in
    if is_some b
    then (returned (begin_error b), l1)
    else deferred env (env.run_body l1) (l1 ++ body ∷ [])

unfoldable pub is_retried : Ended → Bool
is_retried (panicked p) = false
is_retried (returned e) = bad_conn e

-- The loop, with the attempts that are left and the result so far.
unfoldable pub attempts : TxEnv → ℕ → Ended → TxLog → Ended × TxLog
unfolding is_retried
attempts env zero last l = (last, l)
attempts env (suc n) last l =
    let out = transaction env l in
    let rest = attempts env n out.0 out.1 in if is_retried out.0 then rest else out

-- WithTx
unfoldable pub with_tx : TxEnv → TxLog → Ended × TxLog
unfolding attempts
with_tx env l = attempts env 3 (returned none) l
