-- ===== src/Examples/Dns.antt =====
-- The DNS cache over a cache of one entry.
use go_o11y.Prelude.{◌≡◌, ◌⊎◌, refl, ℕ, none}
use go_o11y.Errors.{Err, ok, err}
use go_o11y.Examples.Slots.{slot}
use go_o11y.DnsCache.{Resolver, resolve}
use go_o11y.DnsCache.Fresh.{Fresh, AllFresh, resolve-Fresh}
use go_o11y.Cache.{empty-Sound}

abbrev resolver : Resolver ℕ
resolver = record { cache_size = 64; ttl = 5; lookup = λ at addr. ok at }

-- A second answer within the TTL is that of the first lookup.
resolve_cached : (resolve slot resolver 3 3 "a" (resolve slot resolver 0 1 "a" none).1).0 ≡ ok 1
unfolding resolve
resolve_cached = refl

resolve-Fresh_example :
    AllFresh slot resolver (resolve slot resolver 0 1 "a" none).1
    × ((ips : ℕ)
        → (resolve slot resolver 0 1 "a" none).0 ≡ ok ips
        → Fresh slot resolver 0 "a" ips ⊎ (resolver.lookup 1 "a" ≡ ok ips))
    × ((e : Err) → (resolve slot resolver 0 1 "a" none).0 ≡ err e → resolver.lookup 1 "a" ≡ err e)
resolve-Fresh_example =
    resolve-Fresh slot resolver 0 1 "a" none (empty-Sound slot (Fresh slot resolver))
