-- ===== src/Backoff/Laws.antt =====
-- Retry of an operation whose first error is permanent.
use go_o11y.Prelude.{◌≡◌, Option, some, arith}
use go_o11y.Errors.{Err, find}
use go_o11y.Backoff.{Retries, success, stop, give_up, context_done, again, as_permanent}

module _ {S : Type 0} (op : S → Option Err × S) where
  -- Then Retry runs it once, and returns the content.
  pub Retries-permanent :
      {s t u : S} {e c : Err} {r : Option Err}
      → op s ≡ (some e, t)
      → find e as_permanent ≡ some c
      → Retries op s r u
      → (r ≡ some c) × (u ≡ t)
  Retries-permanent p h (success q) = (cc, cc)
  Retries-permanent p h (stop q k) = (ground arith, ground arith)
  Retries-permanent p h (give_up q k) = (ground arith, ground arith)
  Retries-permanent p h (context_done q k i) = (ground arith, ground arith)
  Retries-permanent p h (again q k n) = (ground arith, ground arith)
