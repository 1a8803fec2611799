-- ===== src/Datadog/Limits.antt =====
-- What the rate limit is after its headers have been read (LoadFromHeader of datadog/client.go).
use go_o11y.Prelude.{◌≡◌, refl, ℕ, String, Option, none, some}
use go_o11y.Errors.{Err}
use go_o11y.Datadog.{Env, RateLimit, seconds, load_from_header, parse_int_from_header, loaded}

module _ (env : Env) (get : String → String) where
  -- The rate limit that the four headers give.
  pub record Headers (r : RateLimit) : Type 0 where
    pub limit : parse_int_from_header env get "X-RateLimit-Limit" ≡ some r.limit
    pub period : ℕ
    pub of_period : parse_int_from_header env get "X-RateLimit-Period" ≡ some period
    pub in_period : r.period ≡ seconds period
    pub remaining : parse_int_from_header env get "X-RateLimit-Remaining" ≡ some r.remaining
    pub reset : ℕ
    pub of_reset : parse_int_from_header env get "X-RateLimit-Reset" ≡ some reset
    pub in_reset : r.reset ≡ seconds reset

  pub load_from_header-Headers :
      (r : RateLimit)
      → (load_from_header env get r).0 ≡ none
      → Headers (load_from_header env get r).1
  unfolding load_from_header loaded
  load_from_header-Headers r =
      go (parse_int_from_header env get "X-RateLimit-Limit")
        (parse_int_from_header env get "X-RateLimit-Period")
        (parse_int_from_header env get "X-RateLimit-Remaining")
        (parse_int_from_header env get "X-RateLimit-Reset") refl refl refl refl
    where
      chain : Option ℕ → Option ℕ → Option ℕ → Option ℕ → Option Err × RateLimit
      chain l p m s =
          loaded env "failed to read RateLimit.Limit" l
            (λ l.
              let r1 = record r { limit = l } in
              loaded env "failed to read RateLimit.Period" p
                (λ p.
                  let r2 = record r1 { period = seconds p } in
                  loaded env "failed to read RateLimit.Remaining" m
                    (λ m.
                      let r3 = record r2 { remaining = m } in
                      loaded env "failed to read RateLimit.Reset" s
                        (λ s. (none, record r3 { reset = seconds s })) r3)
                    r2)
                r1)
            r

      go :
          (l p m s : Option ℕ)
          → parse_int_from_header env get "X-RateLimit-Limit" ≡ l
          → parse_int_from_header env get "X-RateLimit-Period" ≡ p
          → parse_int_from_header env get "X-RateLimit-Remaining" ≡ m
          → parse_int_from_header env get "X-RateLimit-Reset" ≡ s
          → (chain l p m s).0 ≡ none
          → Headers (chain l p m s).1
      go none p m s hl hp hm hs h = cc
      go (some l) none m s hl hp hm hs h = cc
      go (some l) (some p) none s hl hp hm hs h = cc
      go (some l) (some p) (some m) none hl hp hm hs h = cc
      go (some l) (some p) (some m) (some s) hl hp hm hs h = record {
        limit = hl;
        period = p;
        of_period = hp;
        in_period = refl;
        remaining = hm;
        reset = s;
        of_reset = hs;
        in_reset = refl;
      }
