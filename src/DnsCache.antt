-- ===== src/DnsCache.antt =====
-- The DNS cache (httpclient/dnscache/dnscache.go). `Ips` is []net.IP.
pub mod Fresh
pub mod Dial
use go_o11y.Prelude.{ℕ, ◌+◌, String, Option, none, some, ◌==◌, if◌then◌else◌}
use go_o11y.Errors.{Err, Result, ok, err}
use go_o11y.Cache.{Cache}

pub record Config (Ips : Type 0) : Type 0 where
  pub cache_size : ℕ
  pub ttl : ℕ
  pub lookup_func : Option (ℕ → String → Result Ips)

pub record Resolver (Ips : Type 0) : Type 0 where
  pub cache_size : ℕ
  pub ttl : ℕ
  pub lookup : ℕ → String → Result Ips

module _ {Ips : Type 0} where
  -- New: the defaults. `default_lookup` is defaultLookupFunc. The answer of a lookup depends on the
  -- time at which it came.
  unfoldable pub new_resolver : (ℕ → String → Result Ips) → Config Ips → Resolver Ips
  new_resolver default_lookup c = record {
    cache_size = if c.cache_size == 0 then 64 else c.cache_size;
    ttl = if c.ttl == 0 then 5000000000 else c.ttl;
    lookup = elim c.lookup_func [ none ↦ default_lookup | some f ↦ f ];
  }

module _ {C Ips : Type 0} (cache : Cache C Ips) where
  unfoldable pub cache_get : ℕ → String → C → Option Ips × C
  cache_get now addr c = cache.get now addr c

  unfoldable pub cache_set : String → Ips → ℕ → C → C
  cache_set addr ips expire c = cache.set addr ips (some expire) c

  after_lookup : Resolver Ips → String → Result Ips → ℕ → C → Result Ips × C
  after_lookup r addr (err e) at c = (err e, c)
  after_lookup r addr (ok ips) at c = (ok ips, cache_set addr ips (at + r.ttl) c)

  answer : Option Ips → Result Ips × C → C → Result Ips × C
  answer (some ips) missed c = (ok ips, c)
  answer none missed c = missed

  -- Resolve, where the cache is asked at the time `now` and a lookup is answered at the time `at`.
  unfoldable pub resolve : Resolver Ips → ℕ → ℕ → String → C → Result Ips × C
  unfolding cache_get cache_set after_lookup answer
  resolve r now at addr c =
      let (hit, c') = cache_get now addr c in
      answer hit (after_lookup r addr (r.lookup at addr) at c') c'
