-- ===== src/DnsCache/Fresh.antt =====
-- Which addresses the DNS cache answers with (httpclient/dnscache/dnscache.go).
use mathlib.Core.Path.{subst}
use go_o11y.Prelude.{sym, ◌∙◌, ◌≡◌, refl, ℕ, ◌+◌, ◌<◌, String, Option, none, some, ◌⊎◌, inl, inr}
use go_o11y.Errors.{Err, Result, ok, err}
use go_o11y.Cache.{Cache, Sound, get-Sound, set-Sound}
use go_o11y.DnsCache.{Resolver, resolve, cache_get, after_lookup, answer}

module _ {C Ips : Type 0} (cache : Cache C Ips) (r : Resolver Ips) where
  -- At `now` the addresses are those of a lookup of the name that was answered less than the TTL ago.
  abbrev pub Fresh : ℕ → String → Ips → Type 0
  Fresh now addr ips = (at : ℕ) × (r.lookup at addr ≡ ok ips) × (now < at + r.ttl)

  abbrev pub AllFresh : C → Type 0
  AllFresh = Sound cache Fresh

  module _ (now at : ℕ) (addr : String) (c : C) (fresh : AllFresh c) where
    asked : C
    asked = (cache_get cache now addr c).1

    asked-AllFresh : AllFresh asked
    unfolding asked cache_get
    asked-AllFresh = get-Sound cache Fresh now addr c fresh

    missed-AllFresh :
        (x : Result Ips) → r.lookup at addr ≡ x → AllFresh (after_lookup cache r addr x at asked).1
    unfolding resolve
    missed-AllFresh (err e) h = asked-AllFresh
    missed-AllFresh (ok ips) h =
        set-Sound cache Fresh addr ips (some (at + r.ttl)) asked (λ t u. (at, h, u)) asked-AllFresh

    resolve-AllFresh : AllFresh (resolve cache r now at addr c).1
    unfolding resolve asked
    resolve-AllFresh =
        elim (cache.get now addr c).0
          as (λ hit.
            AllFresh
              (answer cache hit (after_lookup cache r addr (r.lookup at addr) at asked) asked).1) [
                | some ips ↦ asked-AllFresh
                | none ↦ missed-AllFresh (r.lookup at addr) refl
              ]

    hit_or_missed :
        (resolve cache r now at addr c).0 ≡ r.lookup at addr
        ⊎ ((ips : Ips) × ((resolve cache r now at addr c).0 ≡ ok ips) × Fresh now addr ips)
    unfolding resolve
    hit_or_missed = go (cache.get now addr c).0 refl
      where
        missed : (x : Result Ips) → (after_lookup cache r addr x at (cache.get now addr c).1).0 ≡ x
        missed (err e) = refl
        missed (ok ips) = refl

        go :
            (o : Option Ips)
            → (cache.get now addr c).0 ≡ o
            → (answer cache o
                  (after_lookup cache r addr (r.lookup at addr) at (cache.get now addr c).1)
                  (cache.get now addr c).1).0
                ≡ r.lookup at addr
              ⊎ ((ips : Ips) × ((answer cache o
                      (after_lookup cache r addr (r.lookup at addr) at (cache.get now addr c).1)
                      (cache.get now addr c).1).0
                    ≡ ok ips)
                  × Fresh now addr ips)
        go none h = inl (missed (r.lookup at addr))
        go (some ips) h = inr (ips, refl, fresh now addr ips h)

    -- If every entry of the cache is fresh, it stays so; the addresses that Resolve returns are
    -- fresh or those of its own lookup; and an error is that of its own lookup.
    pub resolve-Fresh :
        AllFresh (resolve cache r now at addr c).1
        × ((ips : Ips)
            → (resolve cache r now at addr c).0 ≡ ok ips
            → Fresh now addr ips ⊎ (r.lookup at addr ≡ ok ips))
        × ((e : Err) → (resolve cache r now at addr c).0 ≡ err e → r.lookup at addr ≡ err e)
    resolve-Fresh = (
      resolve-AllFresh,
      λ ips h. elim hit_or_missed [
        | inl p ↦ inr (sym p ∙ h)
        | inr (x, p, f) ↦ inl (subst (λ y. Fresh now addr y) (cc (h, p)) f)
      ],
      λ e h. elim hit_or_missed [ inl p ↦ sym p ∙ h | inr (x, p, f) ↦ cc (h, p) ],
    )
