-- ===== src/Errors/Laws.antt =====
-- The tests of errors and warnings under wrapping (o11y/warning.go).
use go_o11y.Prelude.{◌≡◌, refl, String, Option, none, List, [], ◌∷◌}
use go_o11y.Errors.{Err, Var, wrap, is, find}

-- The warning test of an error that fmt.Errorf wrapped any number of times is that of its content,
-- and so is every other test.
abbrev pub wrap_all : List String → Err → Err
wrap_all [] e = e
wrap_all (m ∷ ms) e = wrap m (wrap_all ms e)

pub is-wrap_all : (ms : List String) (e : Err) (t : Var) → is (wrap_all ms e) t ≡ is e t
unfolding is
is-wrap_all [] e t = refl
is-wrap_all (m ∷ ms) e t = is-wrap_all ms e t

pub find-wrap_all {ℓ} :
    {A : Type ℓ} (ms : List String) (e : Err) (pick : Err → Option A)
    → ((m : String) (x : Err) → pick (wrap m x) ≡ none)
    → find (wrap_all ms e) pick ≡ find e pick
unfolding find
find-wrap_all [] e pick h = refl
find-wrap_all (m ∷ ms) e pick h = rw (h m (wrap_all ms e)) (find-wrap_all ms e pick h)
