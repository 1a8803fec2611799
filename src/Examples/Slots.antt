-- ===== src/Examples/Slots.antt =====
-- A cache of one entry.
use go_o11y.Prelude.{
  ◌≡◌, inl, refl, arith, ℕ, String, Bool, true, Option, none, some, ltb, str_eq, eq_iff, ◌&&◌,
  if◌then◌else◌,
}
use go_o11y.Cache.{Cache, Unexpired}

abbrev pub alive : Option ℕ → ℕ → Bool
alive none now = true
alive (some t) now = ltb now t

abbrev pub Slot : Type 0 → Type 0
Slot V = Option (String × V × Option ℕ)

module _ {V : Type 0} where
  abbrev pub find_in : ℕ → String → Slot V → Option V
  find_in now j none = none
  find_in now j (some (k, v, e)) = if str_eq j k && alive e now then some v else none

  pub find_in-set :
      (now : ℕ) (j k : String) (v w : V) (e : Option ℕ)
      → find_in now j (some (k, v, e)) ≡ some w
      → (j ≡ k) × (w ≡ v) × Unexpired e now
  find_in-set now j k v w none h = (ground (arith, eq_iff j k), ground arith, tt)
  find_in-set now j k v w (some t) h = (ground (arith, eq_iff j k), ground arith, ground arith)

  abbrev pub slot : Cache (Slot V) V
  slot = record {
    empty = none;
    get = λ now j c. (find_in now j c, c);
    set = λ k v e c. some (k, v, e);
    get-empty = λ now j. refl;
    get-set = λ now j k v w e c h. inl (find_in-set now j k v w e h);
    get-get = λ now earlier j k w c h. h;
  }
