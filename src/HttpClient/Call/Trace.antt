-- ===== src/HttpClient/Call/Trace.antt =====
-- The statuses that the attempts of one call meet, whatever the server, the policy and the clock
-- (httpclient/httpclient.go).
use go_o11y.Prelude.{
  if_both, inr, inl, ◌⊎◌, ap, ◌≢◌, sym, ◌∙◌, ◌≡◌, refl, arith, ℕ, suc, ◌+◌, ◌≤◌, ◌<◌, String,
  Option, none, some, List, [], ◌∷◌, ◌++◌, length, append_assoc, append-nil,
}
use go_o11y.Errors.{var, Err, Result, find}
use go_o11y.Backoff.{Retries, as_permanent, success, stop, give_up, context_done, again}
use mathlib.Core.Path.{subst}
use go_o11y.HttpClient.Call.Cases.{call_cases}
use go_o11y.HttpClient.Config.{Client}
use go_o11y.HttpClient.Status.{done_retrying, http_error_of}
use go_o11y.HttpClient.Request.{Request}
use go_o11y.HttpClient.World.{HttpRequest, Env, World}
use go_o11y.HttpClient.Attempt.{attempt}
use go_o11y.HttpClient.Attempt.Outcomes.{Attempted, unanswered, replied, attempt-Attempted}
use go_o11y.HttpClient.Call.{max_elapsed, done_retrying, retry_request, call, Policies}

abbrev pub get_last? : List ℕ → Option ℕ
get_last? [] = none
get_last? (a ∷ []) = some a
get_last? (a ∷ b ∷ l) = get_last? (b ∷ l)

-- Every status but the last is one that is retried.
abbrev pub RetriedBefore : List ℕ → Type 0
RetriedBefore [] = Unit
RetriedBefore (a ∷ []) = Unit
RetriedBefore (a ∷ b ∷ l) = (500 ≤ a) × RetriedBefore (b ∷ l)

-- What a run of attempts from `w` to `w'` that met the statuses `l` and ended in `e` satisfies.
pub record Run (env : Env) (w w' : World) (e : Option Err) (l : List ℕ) : Type 0 where
  pub statuses : w'.statuses ≡ w.statuses ++ l
  pub before : RetriedBefore l
  pub counter : w.attempt_counter < w'.attempt_counter
  pub sent : length w'.sent + w.attempt_counter ≤ length w.sent + w'.attempt_counter
  pub good : e ≡ none → (code : ℕ) × (get_last? l ≡ some code) × (code < 300) × (¬ (code ≡ 204))
  pub window : get_last? l ≡ some 429 → (n : ℕ) × (w'.last429 ≡ env.now n) × (w'.readings ≡ suc n)

module _ (env : Env) where
  one-Run :
      {w w' : World} {e : Option Err} {l : List ℕ} → Attempted 1 env w w' e l → Run env w w' e l
  one-Run {w} (unanswered n s x) = record {
    statuses = s ∙ sym (append-nil w.statuses);
    before = tt;
    counter = omega (arith, n.counter);
    sent = omega (arith, n.counter, n.sent);
    good = λ q. absurd (x q);
    window = λ q. ground arith;
  }
  one-Run (replied code n s k g f) = record {
    statuses = s;
    before = tt;
    counter = omega (arith, n.counter);
    sent = omega (arith, n.counter, n.sent);
    good = λ q. (code, refl, (g q).0, (g q).1);
    window = λ q. f (ground arith);
  }

  -- The end of a run may be an error that replaces that of the last attempt.
  with_error :
      {w w' : World} {e : Option Err} {l : List ℕ} (x : Err)
      → Run env w w' e l
      → Run env w w' (some x) l
  with_error x a = record {
    statuses = a.statuses;
    before = a.before;
    counter = a.counter;
    sent = a.sent;
    good = λ q. ground arith;
    window = a.window;
  }

  again-Run :
      {w v w' : World} {x : Err} {e : Option Err} {l : List ℕ} (m : List ℕ)
      → Attempted 1 env w v (some x) l
      → find x as_permanent ≡ none
      → Run env v w' e m
      → Run env w w' e (l ++ m)
  again-Run {w} m (unanswered n s _) h a = record {
    statuses = ground (arith, a.statuses);
    before = a.before;
    counter = omega (arith, n.counter, a.counter);
    sent = omega (arith, n.counter, n.sent, a.sent);
    good = a.good;
    window = a.window;
  }
  again-Run {w} [] (replied code n s k g f) h a = record {
    statuses = a.statuses ∙ ap (λ t. t ++ []) s ∙ append_assoc w.statuses (code ∷ []) [];
    before = tt;
    counter = omega (arith, n.counter, a.counter);
    sent = omega (arith, n.counter, n.sent, a.sent);
    good = λ q. let (i, j, _, _) = a.good q in ground arith;
    window = λ q. ground arith;
  }
  again-Run {w} (d ∷ m) (replied code n s k g f) h a = record {
    statuses = a.statuses ∙ ap (λ t. t ++ d ∷ m) s ∙ append_assoc w.statuses (code ∷ []) (d ∷ m);
    before = (ground arith, a.before);
    counter = omega (arith, n.counter, a.counter);
    sent = omega (arith, n.counter, n.sent, a.sent);
    good = a.good;
    window = a.window;
  }

module _ (env : Env) (policies : Policies) (c : Client) (r : Request) where
  module _ (name : String) (built : Result HttpRequest) where
    abbrev op : World → Option Err × World
    op = attempt env c r name built

    at_result :
        {w t : World} {e : Option Err} → op w ≡ (e, t) → (l : List ℕ) × Attempted 1 env w t e l
    at_result {w} p =
        subst (λ o. (l : List ℕ) × Attempted 1 env w o.1 o.0 l) p
          (attempt-Attempted env c r name w built)

    Retries-Run :
        {w w' : World} {e : Option Err} → Retries op w e w' → (l : List ℕ) × Run env w w' e l
    Retries-Run (success p) = let (l, a) = at_result p in (l, one-Run env a)
    Retries-Run (stop {c = x} p h) =
        let (l, a) = at_result p in (l, with_error env x (one-Run env a))
    Retries-Run (give_up p h) = let (l, a) = at_result p in (l, one-Run env a)
    Retries-Run (context_done {v = x} p h i) =
        let (l, a) = at_result p in (l, with_error env (var x) (one-Run env a))
    Retries-Run (again p h q) =
        let (l, a) = at_result p in let (m, b) = Retries-Run q in (l ++ m, again-Run env m a h b)

    retry_request-Run :
        (w : World)
        → (l : List ℕ) × Run env
            (record w { attempt_counter = 0 })
            (retry_request env policies c r name built w).1
            (retry_request env policies c r name built w).0
            l
    unfolding retry_request
    retry_request-Run w =
        if_both {A = Option Err × World}
          (λ o. (l : List ℕ) × Run env (record w { attempt_counter = 0 }) o.1 o.0 l) r.retry
          (Retries-Run ((policies (max_elapsed c r)).run_lem op (record w { attempt_counter = 0 })))
          (at_once (record w { attempt_counter = 0 }))
      where
        at_once : (v : World) → (l : List ℕ) × Run env v (op v).1 (op v).0 l
        at_once v = let (l, a) = attempt-Attempted env c r name v built in (l, one-Run env a)

  done_retrying-eq-none : (e : Option Err) → done_retrying e ≡ none → e ≡ none
  unfolding done_retrying http_error_of
  done_retrying-eq-none e h = ground arith

  abbrev pub CallOutcome : World → Option Err × World → Type 0
  CallOutcome w o =
      (o.1 ≡ w) × (o.0 ≢ none)
      ⊎ ((l : List ℕ) × Run env (record w { attempt_counter = 0 }) o.1 o.0 l)

  done-Run :
      {w w' : World} (e : Option Err) {l : List ℕ}
      → Run env w w' e l
      → Run env w w' (done_retrying e) l
  done-Run e a = record {
    statuses = a.statuses;
    before = a.before;
    counter = a.counter;
    sent = a.sent;
    good = λ q. a.good (done_retrying-eq-none e q);
    window = a.window;
  }

  -- A call either makes no attempt, changes nothing and returns an error, or its attempts meet
  -- some statuses in turn such that: all but the last are 500 or more; at most one request was
  -- sent for each attempt; if the call returns no error, the last status is below 300 and not 204;
  -- and if the last status is 429, the time kept for the window is that of the last reading of the
  -- client's clock.
  pub call-Run : (w : World) → CallOutcome w (call env policies c r w)
  call-Run w =
      call_cases env policies c r w (CallOutcome w) (λ e. inl (refl, λ q. cc))
        λ name built.
          let (l, a) = retry_request-Run name built w in
          inr (l, done-Run (retry_request env policies c r name built w).0 a)
