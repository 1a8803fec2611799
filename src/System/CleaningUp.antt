-- ===== src/System/CleaningUp.antt =====
-- The order of the cleanups of a system (Cleanup of system/system.go).
use go_o11y.Prelude.{
  ◌≡◌, refl, sym, ap, ◌∙◌, ℕ, zero, suc, some, List, [], ◌∷◌, ◌++◌, length, append_assoc,
  append-nil, Option, none,
}
use go_o11y.Errors.{Err}
use go_o11y.System.{
  System, Cleanup, HealthChecker, MetricProducer, GaugeProducer, add_service, add_health_check,
  add_metrics, add_gauges, add_cleanup, new_system, clean_one, clean_from, clean_up, get_elem?,
}

-- What can be added to a system.
pub data Addition (W : Type 0) : Type 0 where
  a_service : ℕ → Addition W
  a_health_check : HealthChecker → Addition W
  some_metrics : MetricProducer → Addition W
  some_gauges : GaugeProducer → Addition W
  a_cleanup : Cleanup W → Addition W

abbrev error_of : Option Err → List Err
error_of none = []
error_of (some e) = e ∷ []

module _ {W : Type 0} where
  unfoldable pub add : Addition W → System W → System W
  add (a_service f) r = add_service f r
  add (a_health_check h) r = add_health_check h r
  add (some_metrics m) r = add_metrics m r
  add (some_gauges g) r = add_gauges g r
  add (a_cleanup c) r = add_cleanup c r

  abbrev pub add_all : List (Addition W) → System W → System W
  add_all [] r = r
  add_all (a ∷ l) r = add_all l (add a r)

  -- A cleanup adds its error to those before it.
  abbrev pub and_then : Cleanup W → List Err × W → List Err × W
  and_then c s = (s.0 ++ error_of (c s.1).0, (c s.1).1)

  clean_one-and_then : (c : Cleanup W) (s : List Err × W) → clean_one (some c) s ≡ and_then c s
  unfolding clean_one
  clean_one-and_then c (logged, w) = go (c w)
    where
      go :
          (r : Option Err × W)
          → (elim r.0 as (λ _. List Err × W) [
            | none ↦ (logged, r.1)
            | some f ↦ (logged ++ f ∷ [], r.1)
          ])
            ≡ (logged ++ error_of r.0, r.1)
      go (none, w') = ap (λ x. (x, w')) (sym (append-nil logged))
      go (some f, w') = refl

  -- The cleanups among the additions, each at the front of those before it, run one after another.
  abbrev pub run_latest_first : List (Addition W) → W → List Err × W
  run_latest_first [] w = ([], w)
  run_latest_first (a_cleanup c ∷ l) w = and_then c (run_latest_first l w)
  run_latest_first (_ ∷ l) w = run_latest_first l w

  picked : List (Addition W) → List (Cleanup W)
  picked [] = []
  picked (a_cleanup c ∷ l) = c ∷ picked l
  picked (_ ∷ l) = picked l

  add_all-cleanups :
      (l : List (Addition W)) (r : System W) → (add_all l r).cleanups ≡ r.cleanups ++ picked l
  unfolding add picked add_service add_health_check add_metrics add_gauges add_cleanup
  add_all-cleanups [] r = sym (append-nil r.cleanups)
  add_all-cleanups (a_service f ∷ l) r = add_all-cleanups l (add_service f r)
  add_all-cleanups (a_health_check h ∷ l) r = add_all-cleanups l (add_health_check h r)
  add_all-cleanups (some_metrics m ∷ l) r = add_all-cleanups l (add_metrics m r)
  add_all-cleanups (some_gauges g ∷ l) r = add_all-cleanups l (add_gauges g r)
  add_all-cleanups (a_cleanup c ∷ l) r =
      add_all-cleanups l (add_cleanup c r) ∙ append_assoc r.cleanups (c ∷ []) (picked l)

  clean_from-cons :
      (n : ℕ) (c : Cleanup W) (cs : List (Cleanup W)) (s : List Err × W)
      → clean_from (suc n) (c ∷ cs) s ≡ clean_one (some c) (clean_from n cs s)
  unfolding clean_from
  clean_from-cons zero c cs s = refl
  clean_from-cons (suc n) c cs s = clean_from-cons n c cs (clean_one (get_elem? cs n) s)

  clean_from-picked :
      (l : List (Addition W)) (w : W)
      → clean_from (length (picked l)) (picked l) ([], w) ≡ run_latest_first l w
  unfolding picked clean_from
  clean_from-picked [] w = refl
  clean_from-picked (a_service f ∷ l) w = clean_from-picked l w
  clean_from-picked (a_health_check h ∷ l) w = clean_from-picked l w
  clean_from-picked (some_metrics m ∷ l) w = clean_from-picked l w
  clean_from-picked (some_gauges g ∷ l) w = clean_from-picked l w
  clean_from-picked (a_cleanup c ∷ l) w =
      clean_from-cons (length (picked l)) c (picked l) ([], w)
      ∙ ap (clean_one (some c)) (clean_from-picked l w)
      ∙ clean_one-and_then c (run_latest_first l w)

-- The cleanup of a system runs each cleanup that was added to it once, the one that was added last
-- first, in the state that the ones before it left; an error of one is logged, in that order, and
-- keeps none from running. Whatever else was added between them has no part in it.
pub clean_up-latest_first :
    {W : Type 0} (l : List (Addition W)) (w : W)
    → clean_up (add_all l new_system) w ≡ run_latest_first l w
unfolding clean_up new_system
clean_up-latest_first l w =
    let e = add_all-cleanups l new_system in
    ap (λ cs. clean_from (length cs) cs ([], w)) e ∙ clean_from-picked l w
