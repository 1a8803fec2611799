-- ===== src/Examples/Dialling.antt =====
-- Dialling by name, with a resolver that knows one host and a cache that keeps nothing.
use go_o11y.Prelude.{◌≡◌, refl, ℕ, String, none, List, [], ◌∷◌, ◌==◌, if◌then◌else◌}
use go_o11y.Errors.{Result, ok, err, text}
use go_o11y.Cache.{Cache}
use go_o11y.DnsCache.{Resolver}
use go_o11y.DnsCache.Dial.{failed, Explains, dial_context, dial_context-Explains}

abbrev keeps_nothing : Cache (Unit {0}) (List ℕ)
keeps_nothing = record {
  empty = tt;
  get = λ now j c. (none, c);
  set = λ k v e c. tt;
  get-empty = λ now j. refl;
  get-set = λ now j k v w e c h. cc;
  get-get = λ now earlier j k w c h. cc;
}

abbrev resolver : Resolver (List ℕ)
resolver = record { cache_size = 64; ttl = 5; lookup = λ at addr. ok (1 ∷ 2 ∷ []) }

-- The address 1 refuses, and 2 answers.
abbrev dial : String → ℕ → Result ℕ
dial port ip = if ip == 1 then err (text "refused") else ok ip

abbrev split : String → Result (String × String)
split addr = ok ("api", "80")

abbrev in_order : List ℕ → List ℕ
in_order ips = ips

dial_context-Explains_example :
    Explains
      (dial "80")
      (1 ∷ 2 ∷ [])
      (dial_context keeps_nothing split dial in_order resolver 0 1 "api:80" tt).0
unfolding dial_context
dial_context-Explains_example =
    dial_context-Explains keeps_nothing split dial in_order resolver 0 1 "api:80" "api" "80"
      (1 ∷ 2 ∷ []) tt refl refl

-- No address, and neither a connection nor an error.
no_address :
    (dial_context keeps_nothing split dial (λ ips. []) resolver 0 1 "api:80" tt).0 ≡ failed none
unfolding dial_context
no_address = refl
