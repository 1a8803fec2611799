-- ===== src/Db/Tx/Atomic.antt =====
-- When a transaction is committed, rolled back and tried again (db/transactions.go).
use go_o11y.Prelude.{
  not, ◌&&◌, ◌≡◌, refl, arith, ℕ, zero, suc, ◌+◌, ◌≤◌, ◌<◌, true, Option, none, some, [], ◌∷◌, ◌++◌,
  is_some, if◌then◌else◌,
}
use go_o11y.Errors.{Err, err_is}
use go_o11y.Db.Errors.{map_bad_con, bad_conn}
use go_o11y.Db.Tx.{
  TxLog, TxEnv, Ended, returned, panicked, begin, body, commit, rollback, finish, deferred,
  transaction, attempts, with_tx, rolled_back, is_retried, commit_error, begin_error, log_rollback,
}

-- Transactions begun, commits that succeeded, and rollbacks tried.
abbrev pub begun : TxLog → ℕ
begun [] = 0
begun (begin e ∷ l) = suc (begun l)
begun (_ ∷ l) = begun l

abbrev pub committed : TxLog → ℕ
committed [] = 0
committed (commit none ∷ l) = suc (committed l)
committed (_ ∷ l) = committed l

abbrev pub rollbacks : TxLog → ℕ
rollbacks [] = 0
rollbacks (rollback e ∷ l) = suc (rollbacks l)
rollbacks (_ ∷ l) = rollbacks l

begun-append : (l m : TxLog) → begun (l ++ m) ≡ begun l + begun m
begun-append [] m = omega arith
begun-append (e ∷ l) m = ground (arith, begun-append l m)

committed-append : (l m : TxLog) → committed (l ++ m) ≡ committed l + committed m
committed-append [] m = omega arith
committed-append (e ∷ l) m = ground (arith, committed-append l m)

rollbacks-append : (l m : TxLog) → rollbacks (l ++ m) ≡ rollbacks l + rollbacks m
rollbacks-append [] m = omega arith
rollbacks-append (e ∷ l) m = ground (arith, rollbacks-append l m)

abbrev pub succeeded : Ended → ℕ
succeeded (returned none) = 1
succeeded _ = 0

-- The error of a failed commit or begin stays an error.
map_bad_con-some : (e : Err) → is_some (map_bad_con (some e)).1 ≡ true
unfolding map_bad_con
map_bad_con-some e = ground arith

map_bad_con-none : (map_bad_con none).1 ≡ none
unfolding map_bad_con err_is
map_bad_con-none = refl

-- The rollbacks that the deferred function makes after a body that ended so.
abbrev pub needs_rollback : TxEnv → Ended → TxLog → ℕ
needs_rollback env (panicked p) l = 1
needs_rollback env (returned e) l =
    if is_some e && not (bad_conn e) && not (is_some (env.ctx_err l)) then 1 else 0

module _ (env : TxEnv) where
  commit_case :
      (l : TxLog) (c : Option Err)
      → committed (l ++ commit c ∷ []) ≡ committed l + succeeded (returned (commit_error c))
  unfolding commit_error
  commit_case l none = ground (arith, committed-append l (commit none ∷ []), map_bad_con-none)
  commit_case l (some e) =
      ground (arith, committed-append l (commit (some e) ∷ []), map_bad_con-some e)

  rollback_case :
      (l : TxLog)
      → (committed (rolled_back env l) ≡ committed l)
        × (begun (rolled_back env l) ≡ begun l)
        × (rollbacks (rolled_back env l) ≡ suc (rollbacks l))
  unfolding rolled_back
  rollback_case l =
      let tail = rollback (env.rollback_tx l) ∷ log_rollback (env.rollback_tx l) in
      (
        ground (arith, committed-append l tail),
        ground (arith, begun-append l tail),
        ground (arith, rollbacks-append l tail),
      )

  finish-counts :
      (e : Option Err) (l : TxLog)
      → (committed (finish env e l).1 ≡ committed l + succeeded (returned (finish env e l).0))
        × (begun (finish env e l).1 ≡ begun l)
        × (rollbacks (finish env e l).1 ≡ rollbacks l + needs_rollback env (returned e) l)
  unfolding finish bad_conn err_is
  finish-counts e l = (
    ground (arith, rollback_case l, commit_case l (env.commit_tx l)),
    ground (arith, rollback_case l, begun-append l (commit (env.commit_tx l) ∷ [])),
    ground (arith, rollback_case l, rollbacks-append l (commit (env.commit_tx l) ∷ [])),
  )

  deferred-counts :
      (b : Ended) (l : TxLog)
      → (committed (deferred env b l).1 ≡ committed l + succeeded (deferred env b l).0)
        × (begun (deferred env b l).1 ≡ begun l)
        × (rollbacks (deferred env b l).1 ≡ rollbacks l + needs_rollback env b l)
  unfolding deferred
  deferred-counts (panicked p) l =
      let tail = rollback (env.rollback_tx l) ∷ [] in
      (
        ground (arith, committed-append l tail),
        ground (arith, begun-append l tail),
        ground (arith, rollbacks-append l tail),
      )
  deferred-counts (returned e) l = finish-counts e l

  -- One run of the transaction begins once, commits with success exactly if it ends without an
  -- error, and tries one rollback exactly if it began and the function panicked, or returned an
  -- error that is no bad connection while the context was not done.
  pub transaction-counts :
      (l : TxLog)
      → let l1 = l ++ begin (env.begin_txx l) ∷ [] in
        (committed (transaction env l).1 ≡ committed l + succeeded (transaction env l).0)
        × (begun (transaction env l).1 ≡ suc (begun l))
        × (rollbacks (transaction env l).1
            ≡ rollbacks l
              + (if is_some (env.begin_txx l)
                  then 0
                  else needs_rollback env (env.run_body l1) (l1 ++ body ∷ [])))
  unfolding transaction begin_error
  transaction-counts l =
      let b = begin (env.begin_txx l) ∷ [] in
      let l1 = l ++ b in
      let d = deferred-counts (env.run_body l1) (l1 ++ body ∷ []) in
      (
        ground (
          arith,
          d,
          committed-append l b,
          committed-append l1 (body ∷ []),
          map_some (env.begin_txx l),
        ),
        ground (arith, d, begun-append l b, begun-append l1 (body ∷ [])),
        ground (arith, d, rollbacks-append l b, rollbacks-append l1 (body ∷ [])),
      )
    where
      map_some : (e : Option Err) → is_some e ≡ true → is_some (map_bad_con e).1 ≡ true
      map_some none h = cc
      map_some (some e) h = map_bad_con-some e

  retried_failed : (b : Ended) → is_retried b ≡ true → succeeded b ≡ 0
  unfolding is_retried bad_conn err_is
  retried_failed (panicked p) h = refl
  retried_failed (returned none) h = cc
  retried_failed (returned (some e)) h = refl

  attempts-counts :
      (n : ℕ) (last : Ended) (l : TxLog)
      → (committed (attempts env (suc n) last l).1
          ≡ committed l + succeeded (attempts env (suc n) last l).0)
        × (begun l < begun (attempts env (suc n) last l).1)
        × (begun (attempts env (suc n) last l).1 ≤ begun l + suc n)
        × (is_retried (attempts env (suc n) last l).0 ≡ true
            → begun (attempts env (suc n) last l).1 ≡ begun l + suc n)
  unfolding attempts
  attempts-counts zero last l =
      let t = transaction-counts l in
      (ground (arith, t), ground (arith, t), ground (arith, t), λ h. ground (arith, t))
  attempts-counts (suc n) last l =
      let t = transaction-counts l in
      let out = transaction env l in
      let r = attempts-counts n out.0 out.1 in
      (
        ground (arith, t, r, retried_failed out.0),
        ground (arith, t, r),
        ground (arith, t, r),
        λ h. ground (arith, t, r),
      )

  -- WithTx ends without an error exactly if one commit succeeded, and with an error or a panic none
  -- did. It begins one to three transactions, and ends in a bad connection only after three.
  pub with_tx-atomic :
      (l : TxLog)
      → (committed (with_tx env l).1 ≡ committed l + succeeded (with_tx env l).0)
        × (begun l < begun (with_tx env l).1)
        × (begun (with_tx env l).1 ≤ begun l + 3)
        × (is_retried (with_tx env l).0 ≡ true → begun (with_tx env l).1 ≡ begun l + 3)
  unfolding with_tx
  with_tx-atomic l = attempts-counts 2 (returned none) l
