-- ===== src/Cache.antt =====
-- What the program relies on of github.com/vmihailenco/go-tinylfu, whose code is not part of it: an
-- entry that Get finds was Set under its key and has not expired. Entries may be evicted at any time.
-- dnscache.go and releases/release/list.go use it behind a lock.
use mathlib.Core.Path.{subst₂}
use go_o11y.Prelude.{sym, ◌≡◌, ℕ, ◌<◌, String, Option, none, some, ◌⊎◌, inl, inr}

-- An item with no ExpireAt does not expire.
abbrev pub Unexpired : Option ℕ → ℕ → Type 0
Unexpired none now = Unit
Unexpired (some t) now = now < t

pub record Cache (C V : Type 0) : Type 0 where
  pub empty : C
  pub get : ℕ → String → C → Option V × C
  pub set : String → V → Option ℕ → C → C
  pub get-empty : (now : ℕ) (j : String) → (get now j empty).0 ≡ none
  pub get-set :
      (now : ℕ) (j k : String) (v w : V) (e : Option ℕ) (c : C)
      → (get now j (set k v e c)).0 ≡ some w
      → ((j ≡ k) × (w ≡ v) × Unexpired e now) ⊎ ((get now j c).0 ≡ some w)
  pub get-get :
      (now then : ℕ) (j k : String) (w : V) (c : C)
      → (get now j (get then k c).1).0 ≡ some w
      → (get now j c).0 ≡ some w

module _ {C V : Type 0} (cache : Cache C V) (P : ℕ → String → V → Type 0) where
  -- Every entry that can be found has the property.
  abbrev pub Sound : C → Type 0
  Sound c = (now : ℕ) (k : String) (v : V) → (cache.get now k c).0 ≡ some v → P now k v

  pub empty-Sound : Sound cache.empty
  empty-Sound now k v h = cc (h, cache.get-empty now k)

  pub get-Sound : (then : ℕ) (j : String) (c : C) → Sound c → Sound (cache.get then j c).1
  get-Sound then j c s now k v h = s now k v (cache.get-get now then k j v c h)

  pub set-Sound :
      (k : String) (v : V) (e : Option ℕ) (c : C)
      → ((now : ℕ) → Unexpired e now → P now k v)
      → Sound c
      → Sound (cache.set k v e c)
  set-Sound k v e c p s now j w h = elim (cache.get-set now j k v w e c h) [
    | inl (a, b, u) ↦ subst₂ (λ x y. P now x y) (sym a) (sym b) (p now u)
    | inr old ↦ s now j w old
  ]
