-- ===== src/Prelude/Maps.antt =====
-- Go's `map[string]V` as an association list. The order of the list is the order in which a `range`
-- loop meets the entries, which Go leaves open.
use Prim.Native.String.{String}
use mathlib.Core.Path.{◌≡◌, refl, subst, ◌∙◌}
use mathlib.Core.Logic.{inl, inr}
use mathlib.Core.Bool.{false}
use mathlib.Core.Option.{Option, none, some}
use mathlib.Core.List.{List, [], ◌∷◌}
use native.Mathlib.Omega.{arith}
use text.Mathlib.Text.{◌==◌}
use text.Mathlib.TextEquality.{eq_iff}
use go_o11y.Prelude.Tests.{if◌then◌else◌, Bool-cases, or_else}

abbrev pub Dict {ℓ} : Type ℓ → Type ℓ
Dict V = List (String × V)

module _ {ℓ} {V : Type ℓ} where
  -- `m[k]`, with `none` for a missing key.
  unfoldable pub get : String → Dict V → Option V
  get k [] = none
  get k ((j, v) ∷ m) = if j == k then some v else get k m

  -- `m[k] = v`
  unfoldable pub put : String → V → Dict V → Dict V
  put k v [] = (k, v) ∷ []
  put k v ((j, w) ∷ m) = if j == k then (k, v) ∷ m else (j, w) ∷ put k v m

  pub get-put :
      (k j : String) (v : V) (m : Dict V) → get j (put k v m) ≡ (if k == j then some v else get j m)
  unfolding get put
  get-put k j v [] = refl
  get-put k j v ((i, w) ∷ m) = ground (arith, eq_iff k j, eq_iff i k, eq_iff i j, get-put k j v m)

  -- `delete(m, k)`
  unfoldable pub delete : String → Dict V → Dict V
  delete k [] = []
  delete k ((j, v) ∷ m) = let rest = delete k m in if j == k then rest else (j, v) ∷ rest

  pub get-delete :
      (k j : String) (m : Dict V) → get j (delete k m) ≡ (if k == j then none else get j m)
  unfolding get delete
  get-delete k j [] = ground arith
  get-delete k j ((i, v) ∷ m) = ground (arith, get-delete k j m, eq_iff i k, eq_iff i j, eq_iff k j)

  -- No key twice, as in a map.
  abbrev pub Distinct : Dict V → Type ℓ
  Distinct [] = Unit
  Distinct ((k, v) ∷ m) = (get k m ≡ none) × Distinct m

  pub put-Distinct : (k : String) (v : V) (m : Dict V) → Distinct m → Distinct (put k v m)
  unfolding put get
  put-Distinct k v [] h = (refl, tt)
  put-Distinct k v ((j, w) ∷ m) h = elim (Bool-cases (j == k)) [
    | inl e ↦ rw e (subst (λ i. get i m ≡ none) ((eq_iff j k).0 e) h.0, h.1)
    | inr e ↦
        rw e (ground (arith, get-put k j v m, eq_iff k j, eq_iff j k, h.0), put-Distinct k v m h.1)
  ]

  pub delete-Distinct : (k : String) (m : Dict V) → Distinct m → Distinct (delete k m)
  unfolding delete
  delete-Distinct k [] h = tt
  delete-Distinct k ((j, v) ∷ m) h = elim (Bool-cases (j == k)) [
    | inl e ↦ rw e (delete-Distinct k m h.1)
    | inr e ↦ rw e (ground (arith, get-delete k j m, h.0), delete-Distinct k m h.1)
  ]

module _ {V : Type 0} (key : String → String) where
  -- The entries of one map put into another, under changed keys.
  abbrev pub put_all : Dict V → Dict V → Dict V
  put_all [] m = m
  put_all ((k, v) ∷ kvs) m = put_all kvs (put (key k) v m)

  pub put_all-Distinct : (d m : Dict V) → Distinct m → Distinct (put_all d m)
  put_all-Distinct [] m h = h
  put_all-Distinct ((k, v) ∷ d) m h =
      put_all-Distinct d (put (key k) v m) (put-Distinct (key k) v m h)

  -- A key that is the image of none is left alone.
  pub get-put_all_other :
      (j : String)
      → ((k : String) → (key k == j) ≡ false)
      → (d m : Dict V) → get j (put_all d m) ≡ get j m
  get-put_all_other j h [] m = refl
  get-put_all_other j h ((k, v) ∷ d) m =
      get-put_all_other j h d (put (key k) v m) ∙ ground (arith, get-put (key k) j v m, h k)

  module _ (injective : (j k : String) → key j ≡ key k → j ≡ k) where
    pub get-put_all :
        (j : String) (d m : Dict V)
        → Distinct d
        → get (key j) (put_all d m) ≡ or_else (get j d) (get (key j) m)
    unfolding get
    get-put_all j [] m e = refl
    get-put_all j ((k, v) ∷ d) m e = ground (
      arith,
      get-put_all j d (put (key k) v m) e.1,
      get-put (key k) (key j) v m,
      e.0,
      injective j k,
      eq_iff k j,
      eq_iff (key k) (key j),
    )
