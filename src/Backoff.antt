-- ===== src/Backoff.antt =====
-- What the program relies on of github.com/cenkalti/backoff/v4, whose code is not part of it: Retry
-- runs an operation until it succeeds, until its error is a PermanentError, whose content is then
-- returned, or until the policy or the context ends the retries.
pub mod Laws
use go_o11y.Prelude.{◌≡◌, Option, none, some}
use go_o11y.Errors.{Err, Var, var, permanent, find, canceled, deadline_exceeded}

abbrev pub as_permanent : Err → Option Err
as_permanent (permanent e) = some e
as_permanent _ = none

pub data IsContextError : Var → Type 0 where
  on_cancel : IsContextError canceled
  on_deadline : IsContextError deadline_exceeded

-- The runs of Retry that are documented, over an operation that changes a state.
pub data Retries {S : Type 0} (op : S → Option Err × S) : S → Option Err → S → Type 0 where
  success : {s t : S} → op s ≡ (none, t) → Retries op s none t
  stop :
      {s t : S} {e c : Err}
      → op s ≡ (some e, t)
      → find e as_permanent ≡ some c
      → Retries op s (some c) t
  give_up :
      {s t : S} {e : Err}
      → op s ≡ (some e, t)
      → find e as_permanent ≡ none
      → Retries op s (some e) t
  context_done :
      {s t : S} {e : Err} {v : Var}
      → op s ≡ (some e, t)
      → find e as_permanent ≡ none
      → IsContextError v
      → Retries op s (some (var v)) t
  again :
      {s t u : S} {e : Err} {r : Option Err}
      → op s ≡ (some e, t)
      → find e as_permanent ≡ none
      → Retries op t r u
      → Retries op s r u

-- backoff.Retry under some policy and context.
pub record Retry (S : Type 0) : Type 0 where
  pub run : (S → Option Err × S) → S → Option Err × S
  pub run_lem : (op : S → Option Err × S) (s : S) → Retries op s (run op s).0 (run op s).1
