-- ===== src/HttpClient/Attempt/Outcomes.antt =====
-- What one attempt adds to the state, by the answer that it gets (httpclient/httpclient.go).
use mathlib.Core.Path.{refl}
use go_o11y.Prelude.{
  inr, inl, Bool-cases, ◌+◌, length-append, ◌≢◌, ◌≤◌, false, List, length, String, ◌≡◌, arith, ℕ,
  suc, ◌<◌, Bool, true, Option, none, some, [], ◌∷◌, ◌++◌, ltb, is_some,
}
use go_o11y.Errors.{err, Result, ok, Err, find}
use go_o11y.Backoff.{as_permanent}
use go_o11y.HttpClient.Config.{Client}
use go_o11y.HttpClient.Request.{Request}
use go_o11y.HttpClient.Status.{extract_http_error, has_status_code}
use go_o11y.HttpClient.World.{Env, World, HttpRequest, Response}
use go_o11y.HttpClient.Attempt.{
  prepared, send, attempt, should_backoff, set_last429, failed_response, good_response, on_response,
  decode_body,
}

-- Whether Retry ends with this error of the operation.
abbrev pub stops : Option Err → Bool
stops none = true
stops (some e) = is_some (find e as_permanent)

-- What is known of a state after part of an attempt that was answered with a status.
pub record Answered (code : ℕ) (env : Env) (w w' : World) (e : Option Err) : Type 0 where
  pub statuses : w'.statuses ≡ w.statuses ++ code ∷ []
  pub counter : w'.attempt_counter ≡ w.attempt_counter
  pub sent : w'.sent ≡ w.sent
  pub class : stops e ≡ ltb code 500
  pub good : e ≡ none → (code < 300) × (¬ (code ≡ 204))
  pub window : code ≡ 429 → (w'.last429 ≡ env.now w.readings) × (w'.readings ≡ suc w.readings)

on_response-Answered :
    (env : Env) (c : Client) (r : Request) (req : HttpRequest) (res : Response) (w : World)
    → Answered res.status_code env w
        (on_response env c r req res w).2
        (on_response env c r req res w).0
unfolding on_response failed_response good_response extract_http_error set_last429 decode_body
    has_status_code
on_response-Answered env c r req res w = record {
  statuses = ground arith;
  counter = ground arith;
  sent = ground arith;
  class = ground arith;
  good = λ h. ground arith;
  window = λ h. ground arith;
}

-- The state after `k` more attempts, of one request at most.
pub record Counted (k : ℕ) (w w' : World) : Type 0 where
  pub counter : w'.attempt_counter ≡ k + w.attempt_counter
  pub sent : length w'.sent ≤ suc (length w.sent)

-- Part of an attempt with the statuses that it was answered with.
pub data Attempted (k : ℕ) (env : Env) (w w' : World) (e : Option Err) : List ℕ → Type 0 where
  unanswered : Counted k w w' → w'.statuses ≡ w.statuses → e ≢ none → Attempted k env w w' e []
  replied :
      (code : ℕ)
      → Counted k w w'
      → w'.statuses ≡ w.statuses ++ code ∷ []
      → stops e ≡ ltb code 500
      → (e ≡ none → (code < 300) × (¬ (code ≡ 204)))
      → (code ≡ 429 → (n : ℕ) × (w'.last429 ≡ env.now n) × (w'.readings ≡ suc n))
      → Attempted k env w w' e (code ∷ [])

module _ (env : Env) (c : Client) (r : Request) where
  send-Attempted :
      (req : HttpRequest) (w : World)
      → (l : List ℕ) × Attempted 0 env w (send env c r req w).2 (send env c r req w).0 l
  unfolding send
  send-Attempted req w = go (env.round_trip w.sent (prepared env c r req)) refl
    where
      go :
          (a : Result Response)
          → env.round_trip w.sent (prepared env c r req) ≡ a
          → (l : List ℕ) × Attempted 0 env w (send env c r req w).2 (send env c r req w).0 l
      go (err e) p = (
        [],
        unanswered
            (record {
              counter = ground arith;
              sent = ground (arith, length-append w.sent (prepared env c r req ∷ []));
            })
            (ground arith) (λ q. ground arith),
      )
      go (ok res) p =
          let after = record w { sent = w.sent ++ prepared env c r req ∷ [] } in
          let a = on_response-Answered env c r (prepared env c r req) res after in
          (
            res.status_code ∷ [],
            replied res.status_code
                (record {
                  counter = ground (arith, a.counter);
                  sent = ground (arith, a.sent, length-append w.sent (prepared env c r req ∷ []));
                })
                (ground (arith, a.statuses)) (ground (arith, a.class)) (λ q. ground (arith, a.good))
                (λ q. (w.readings, ground (arith, a.window), ground (arith, a.window))),
          )

-- The state in which an attempt sends.
abbrev entered : Env → Client → World → World
entered env c w = (should_backoff env c (record w { attempt_counter = suc w.attempt_counter })).1

entered-fields :
    (env : Env) (c : Client) (w : World)
    → ((entered env c w).sent ≡ w.sent)
      × ((entered env c w).statuses ≡ w.statuses)
      × ((entered env c w).attempt_counter ≡ suc w.attempt_counter)
unfolding should_backoff
entered-fields env c w = (ground arith, ground arith, ground arith)

module _ (env : Env) (c : Client) (r : Request) (name : String) (w : World) where
  abbrev backs_off : Bool
  backs_off = (should_backoff env c (record w { attempt_counter = suc w.attempt_counter })).0

  -- What follows for the attempt from what sending gives.
  after_send :
      (req : HttpRequest) (l : List ℕ)
      → backs_off ≡ false
      → Attempted 0 env
          (entered env c w)
          (send env c r req (entered env c w)).2
          (send env c r req (entered env c w)).0
          l
      → Attempted 1 env w (attempt env c r name (ok req) w).1 (attempt env c r name (ok req) w).0 l
  unfolding attempt
  after_send req l h (unanswered n s e) =
      unanswered
        (record {
          counter = ground (arith, entered-fields env c w, n.counter);
          sent = ground (arith, entered-fields env c w, n.sent);
        })
        (ground (arith, entered-fields env c w)) (λ q. ground arith)
  after_send req l h (replied code n s k g f) =
      replied code
        (record {
          counter = ground (arith, entered-fields env c w, n.counter);
          sent = ground (arith, entered-fields env c w, n.sent);
        })
        (ground (arith, entered-fields env c w)) (ground arith) (λ q. ground arith)
        (λ q. let (m, a, b) = f q in (m, ground arith, ground arith))

  pub attempt-Attempted :
      (built : Result HttpRequest)
      → (l : List ℕ) × Attempted 1 env w
          (attempt env c r name built w).1
          (attempt env c r name built w).0
          l
  unfolding attempt
  attempt-Attempted built = elim (Bool-cases backs_off) [
    | inl h ↦ (
      [],
      unanswered
          (record {
            counter = ground (arith, entered-fields env c w);
            sent = ground (arith, entered-fields env c w);
          })
          (ground (arith, entered-fields env c w)) (λ q. ground arith),
    )
    | inr h ↦ go built h
  ]
    where
      go :
          (b : Result HttpRequest)
          → backs_off ≡ false
          → (l : List ℕ) × Attempted 1 env w
              (attempt env c r name b w).1
              (attempt env c r name b w).0
              l
      go (err e) h = (
        [],
        unanswered
            (record {
              counter = ground (arith, entered-fields env c w);
              sent = ground (arith, entered-fields env c w);
            })
            (ground (arith, entered-fields env c w)) (λ q. ground arith),
      )
      go (ok req) h =
          let (l, a) = send-Attempted env c r req (entered env c w) in (l, after_send req l h a)
