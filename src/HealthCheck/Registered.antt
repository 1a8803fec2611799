-- ===== src/HealthCheck/Registered.antt =====
-- Which checks the live and the ready handlers run (httpserver/healthcheck/healthcheck.go).
use mathlib.Core.Path.{subst}
use go_o11y.Prelude.{
  ◌≡◌, ◌≢◌, refl, sym, ap, ◌∙◌, arith, ℕ, String, Bool, false, not, ◌&&◌, ◌||◌, Option, none, some,
  List, [], ◌∷◌, ◌++◌, append_assoc, append-nil, is_some, if◌then◌else◌,
}
use go_o11y.Errors.{Err, Result, ok, err, text, wrap}
use go_o11y.Span.{Span}
use go_o11y.System.{System, HealthChecker, health_checks_of}
use go_o11y.HealthCheck.{
  HealthLibrary, CheckConfig, and_then, when_ok, with_value, on_error, register_one, register_each,
  new_health_handlers, new_api, load_api, api_of, get_health, handle_health, Api,
}

-- The check of one kind, as it is to be registered.
abbrev pub check_of : String → Option (Option Err) → List CheckConfig
check_of name none = []
check_of name (some c) =
    record { name = name; timeout = 5000000000; skip_on_err = false; check = c } ∷ []

abbrev pub ready_checks : List HealthChecker → List CheckConfig
ready_checks [] = []
ready_checks (c ∷ cs) = check_of c.name c.ready ++ ready_checks cs

abbrev pub live_checks : List HealthChecker → List CheckConfig
live_checks [] = []
live_checks (c ∷ cs) = check_of c.name c.live ++ live_checks cs

-- Whether a check that is registered fails, and is not one that may.
abbrev pub any_failed : List CheckConfig → Bool
any_failed [] = false
any_failed (c ∷ cs) = (is_some c.check && not c.skip_on_err) || any_failed cs

-- Whether there is a check of one kind that fails.
abbrev pub fails : Option (Option Err) → Bool
fails none = false
fails (some e) = is_some e

abbrev pub any_ready_fails : List HealthChecker → Bool
any_ready_fails [] = false
any_ready_fails (c ∷ cs) = fails c.ready || any_ready_fails cs

abbrev pub any_live_fails : List HealthChecker → Bool
any_live_fails [] = false
any_live_fails (c ∷ cs) = fails c.live || any_live_fails cs

check_of-fails :
    (name : String) (o : Option (Option Err)) (l : List CheckConfig)
    → any_failed (check_of name o ++ l) ≡ (fails o || any_failed l)
check_of-fails name none l = refl
check_of-fails name (some c) l = ground arith

ready_checks-fail : (cs : List HealthChecker) → any_failed (ready_checks cs) ≡ any_ready_fails cs
ready_checks-fail [] = refl
ready_checks-fail (c ∷ cs) =
    check_of-fails c.name c.ready (ready_checks cs)
    ∙ ap (λ b. fails c.ready || b) (ready_checks-fail cs)

live_checks-fail : (cs : List HealthChecker) → any_failed (live_checks cs) ≡ any_live_fails cs
live_checks-fail [] = refl
live_checks-fail (c ∷ cs) =
    check_of-fails c.name c.live (live_checks cs)
    ∙ ap (λ b. fails c.live || b) (live_checks-fail cs)

-- What is relied on: New makes a health.Health of its own, without checks; Register adds its check
-- to the one that it is called on, and to no other, or fails; and the status that Measure gives is
-- StatusUnavailable if a check fails that was not registered as one that may, and only then.
pub record Documented (S H : Type 0) (lib : HealthLibrary S H) : Type 1 where
  pub checks : S → H → List CheckConfig
  pub IsMade : S → H → Type 0
  pub new_made : (s t : S) (h : H) → lib.new s ≡ (ok h, t) → IsMade t h
  pub new_fresh : (s t : S) (h : H) → lib.new s ≡ (ok h, t) → ¬ IsMade s h
  pub new_checks : (s t : S) (h : H) → lib.new s ≡ (ok h, t) → checks t h ≡ []
  pub new_others :
      (s t : S) (h g : H)
      → lib.new s ≡ (ok h, t)
      → IsMade s g
      → IsMade t g × (checks t g ≡ checks s g)
  pub register_checks :
      (s t : S) (h : H) (c : CheckConfig)
      → lib.register h c s ≡ (none, t)
      → checks t h ≡ checks s h ++ c ∷ []
  pub register_others :
      (s t : S) (h g : H) (c : CheckConfig)
      → lib.register h c s ≡ (none, t)
      → g ≢ h
      → checks t g ≡ checks s g
  pub measure_unavailable :
      (s : S) (h : H) → (lib.measure h s).unavailable ≡ any_failed (checks s h)

ok_inj : {A : Type 0} {a b : A} → Result.ok a ≡ ok b → a ≡ b
ok_inj p = cc

module _ {S : Type 0} where
  and_then-none :
      (x : Option Err × S) (f : S → Option Err × S) (t : S)
      → and_then x f ≡ (none, t)
      → (s : S) × (x ≡ (none, s)) × (f s ≡ (none, t))
  and_then-none (none, s) f t e = (s, refl, e)
  and_then-none (some g, s) f t e = absurd (cc (ap (λ x. x.0) e))

  when_ok-ok :
      {A B : Type 0} (x : Result A × S) (f : A → S → Result B × S) (b : B) (t : S)
      → when_ok x f ≡ (ok b, t)
      → (a : A) × (s : S) × (x ≡ (ok a, s)) × (f a s ≡ (ok b, t))
  when_ok-ok (ok a, s) f b t e = (a, s, refl, e)
  when_ok-ok (err g, s) f b t e = absurd (cc (ap (λ x. x.0) e))

  with_value-ok :
      {A : Type 0} (a b : A) (x : Option Err × S) (t : S)
      → with_value a x ≡ (ok b, t)
      → (x ≡ (none, t)) × (a ≡ b)
  with_value-ok a b (none, s) t e = (ap (λ x. (none, x.1)) e, ok_inj (ap (λ x. x.0) e))
  with_value-ok a b (some g, s) t e = absurd (cc (ap (λ x. x.0) e))

  on_error-ok :
      {A : Type 0} (f : Err → Err) (x : Result A × S) (a : A) (t : S)
      → on_error f x ≡ (ok a, t)
      → x ≡ (ok a, t)
  on_error-ok f (ok b, s) a t e = e
  on_error-ok f (err g, s) a t e = absurd (cc (ap (λ x. x.0) e))

module _ {S H : Type 0} (lib : HealthLibrary S H) (doc : Documented S H lib) where
  register_one-checks :
      (name : String) (o : Option (Option Err)) (h : H) (s t : S)
      → register_one lib name o h s ≡ (none, t)
      → (doc.checks t h ≡ doc.checks s h ++ check_of name o)
        × ((g : H) → g ≢ h → doc.checks t g ≡ doc.checks s g)
  unfolding register_one
  register_one-checks name none h s t e =
      let same : s ≡ t = ap (λ x. x.1) e in
      (
        ap (λ x. doc.checks x h) (sym same) ∙ sym (append-nil (doc.checks s h)),
        λ g n. ap (λ x. doc.checks x g) (sym same),
      )
  register_one-checks name (some c) h s t e =
      (doc.register_checks s t h _ e, λ g n. doc.register_others s t h g _ e n)

  module _ (live ready : H) (differ : live ≢ ready) where
    abbrev Extends : S → List HealthChecker → S → Type 0
    Extends s cs t =
        (doc.checks t live ≡ doc.checks s live ++ live_checks cs)
        × (doc.checks t ready ≡ doc.checks s ready ++ ready_checks cs)

    register_each-checks :
        (cs : List HealthChecker) (s t : S)
        → register_each lib cs live ready s ≡ (none, t)
        → Extends s cs t
    unfolding register_each
    register_each-checks [] s t e =
        let same : s ≡ t = ap (λ x. x.1) e in
        (
          ap (λ x. doc.checks x live) (sym same) ∙ sym (append-nil (doc.checks s live)),
          ap (λ x. doc.checks x ready) (sym same) ∙ sym (append-nil (doc.checks s ready)),
        )
    register_each-checks (c ∷ cs) s t e =
        let (s1, p, e1) =
          and_then-none (register_one lib c.name c.ready ready s)
            (λ x.
              and_then (register_one lib c.name c.live live x) (register_each lib cs live ready))
            t e in
        let (s2, q, e2) =
          and_then-none (register_one lib c.name c.live live s1) (register_each lib cs live ready) t
            e1 in
        let (a, others) = register_one-checks c.name c.ready ready s s1 p in
        let (b, others') = register_one-checks c.name c.live live s1 s2 q in
        let (l, r) = register_each-checks cs s2 t e2 in
        (
          l
              ∙ ap (λ x. x ++ live_checks cs)
                  (b ∙ ap (λ x. x ++ check_of c.name c.live) (others live differ))
              ∙ append_assoc (doc.checks s live) (check_of c.name c.live) (live_checks cs),
          r
              ∙ ap (λ x. x ++ ready_checks cs) (others' ready (λ z. differ (sym z)) ∙ a)
              ∙ append_assoc (doc.checks s ready) (check_of c.name c.ready) (ready_checks cs),
        )

  -- The checks of the two handlers, live first.
  abbrev Runs : List HealthChecker → S → H × H → Type 0
  Runs cs t hs = (doc.checks t hs.0 ≡ live_checks cs) × (doc.checks t hs.1 ≡ ready_checks cs)

  new_health_handlers-checks :
      (cs : List HealthChecker) (s t : S) (hs : H × H)
      → new_health_handlers lib cs s ≡ (ok hs, t)
      → Runs cs t hs
  unfolding new_health_handlers
  new_health_handlers-checks cs s t hs e =
      let (live, s1, p, e1) = when_ok-ok (lib.new s) _ hs t e in
      let (ready, s2, q, e2) = when_ok-ok (lib.new s1) _ hs t e1 in
      let (reg, same) = with_value-ok (live, ready) hs (register_each lib cs live ready s2) t e2 in
      let (made, kept) = doc.new_others s1 s2 ready live q (doc.new_made s s1 live p) in
      let differ : live ≢ ready =
        λ z. doc.new_fresh s1 s2 ready q (subst (doc.IsMade s1) z (doc.new_made s s1 live p)) in
      let (l, r) = register_each-checks live ready differ cs s2 t reg in
      subst (Runs cs t) same (
        l ∙ ap (λ x. x ++ live_checks cs) (kept ∙ doc.new_checks s s1 live p),
        r ∙ ap (λ x. x ++ ready_checks cs) (doc.new_checks s1 s2 ready q),
      )

  handle_health-status :
      (h : H) (s : S) (l : List CheckConfig) (b : Bool)
      → doc.checks s h ≡ l
      → any_failed l ≡ b
      → (handle_health lib h s).0 ≡ (if b then 503 else 200)
  unfolding handle_health
  handle_health-status h s l b e f = ground (arith, doc.measure_unavailable s h, ap any_failed e, f)

abbrev pub status_of : Option (ℕ × Span) → Option ℕ
status_of none = none
status_of (some x) = some x.0

api_parts : {H : Type 0} → Api H → H × H
api_parts a = (a.live, a.ready)

-- If the admin API of a system can be made, the ready checks of the health checkers that have one are
-- registered for /ready, and their live checks for /live, each with five seconds, in the order in
-- which the checkers were added, and no other checks. A request for /ready is answered with status 503
-- if one of the ready checks fails, and with 200 otherwise; and one for /live so by the live checks.
-- health-go is taken to make a new health.Health at each call of New, to add each check that it
-- accepts to the one that Register is called on, and to report it as unavailable exactly if one of
-- its checks fails.
pub load_api-checks :
    {S H W : Type 0} (lib : HealthLibrary S H) (doc : Documented S H lib) (sys : System W) (s t : S)
    (a : Api H)
    → load_api lib sys s ≡ (ok a, t)
    → (doc.checks t a.live ≡ live_checks sys.health_checks)
      × (doc.checks t a.ready ≡ ready_checks sys.health_checks)
      × (status_of (get_health lib a "/live" t)
          ≡ some (if any_live_fails sys.health_checks then 503 else 200))
      × (status_of (get_health lib a "/ready" t)
          ≡ some (if any_ready_fails sys.health_checks then 503 else 200))
unfolding load_api new_api health_checks_of api_of api_parts get_health
load_api-checks lib doc sys s t a e =
    let cs = sys.health_checks in
    let (hs, s', made, e') =
      when_ok-ok (on_error (wrap "failed to create health checks") (new_health_handlers lib cs s)) _
        a t (on_error-ok (λ f. text "error creating health check API") (new_api lib cs s) a t e) in
    let same : hs ≡ (a.live, a.ready) = ap api_parts (ok_inj (ap (λ x. x.0) e')) in
    let handlers =
      on_error-ok (wrap "failed to create health checks") (new_health_handlers lib cs s) hs s'
        made in
    let (l, r) = subst (Runs lib doc cs t) same (
      subst (λ x. Runs lib doc cs x hs) (ap (λ x. x.1) e')
        (new_health_handlers-checks lib doc cs s s' hs handlers)) in
    (
      l,
      r,
      ap some (handle_health-status lib doc a.live t (live_checks cs) _ l (live_checks-fail cs)),
      ap some (handle_health-status lib doc a.ready t (ready_checks cs) _ r (ready_checks-fail cs)),
    )
