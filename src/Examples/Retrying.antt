-- ===== src/Examples/Retrying.antt =====
-- A concrete backoff.Retry: up to `n` more attempts while the error is not permanent.
use go_o11y.Prelude.{◌≡◌, refl, ℕ, zero, suc, Option, none, some}
use go_o11y.Errors.{Err, find}
use go_o11y.Backoff.{Retry, Retries, success, stop, give_up, again, as_permanent}

module _ {S : Type 0} where
  abbrev unless_permanent : Option Err → S → Option Err × S → Option Err × S
  unless_permanent none t rest = rest
  unless_permanent (some c) t rest = (some c, t)

  abbrev after : Option Err → S → Option Err × S → Option Err × S
  unfolding find
  after none t rest = (none, t)
  after (some e) t rest = unless_permanent (find e as_permanent) t rest

  unfoldable pub retry_run : ℕ → (S → Option Err × S) → S → Option Err × S
  unfolding find
  retry_run zero op s = after (op s).0 (op s).1 (op s)
  retry_run (suc n) op s = after (op s).0 (op s).1 (retry_run n op (op s).1)

  Retries-after :
      (op : S → Option Err × S) (s t : S) (o : Option Err) (rest : Option Err × S)
      → op s ≡ (o, t)
      → ((e : Err) → op s ≡ (some e, t) → find e as_permanent ≡ none → Retries op s rest.0 rest.1)
      → Retries op s (after o t rest).0 (after o t rest).1
  unfolding find
  Retries-after op s t none rest p h = success p
  Retries-after op s t (some e) rest p h = go (find e as_permanent) refl
    where
      go :
          (f : Option Err)
          → find e as_permanent ≡ f
          → Retries op s (unless_permanent f t rest).0 (unless_permanent f t rest).1
      go none q = h e p q
      go (some c) q = stop p q

  pub Retries-retry_run :
      (n : ℕ) (op : S → Option Err × S) (s : S)
      → Retries op s (retry_run n op s).0 (retry_run n op s).1
  unfolding retry_run
  Retries-retry_run zero op s =
      Retries-after op s (op s).1 (op s).0 (op s) refl (λ e p q. last e p q)
    where
      last :
          (e : Err)
          → op s ≡ (some e, (op s).1)
          → find e as_permanent ≡ none
          → Retries op s (op s).0 (op s).1
      last e p q = rw p (give_up p q)
  Retries-retry_run (suc n) op s =
      Retries-after op s (op s).1 (op s).0 (retry_run n op (op s).1) refl
        (λ e p q. again p q (Retries-retry_run n op (op s).1))

  unfoldable pub retrying : ℕ → Retry S
  unfolding retry_run
  retrying n = record { run = retry_run n; run_lem = Retries-retry_run n }
