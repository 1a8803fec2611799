-- ===== src/DnsCache/Dial.antt =====
-- Dialling by name (httpclient/dnscache/net.go). The parameters are what the code takes from `net`:
-- SplitHostPort, JoinHostPort of an address, and the shuffled order of the addresses, by which the
-- loop over randPerm goes.
use mathlib.Core.Path.{subst}
use go_o11y.Prelude.{
  arith, ◌≡◌, refl, ap, sym, ◌∙◌, ℕ, String, Option, none, some, List, [], ◌∷◌, ◌++◌, All, or_else,
}
use go_o11y.Errors.{Err, Result, ok, err}
use go_o11y.Cache.{Cache}
use go_o11y.DnsCache.{Resolver, resolve}

-- What a dial returns: a connection with no error, or no connection, with an error or nil.
pub data Dialled (Conn : Type 0) : Type 0 where
  connected : Conn → Dialled Conn
  failed : Option Err → Dialled Conn

module _ {Conn Ip : Type 0} (base_dial : Ip → Result Conn) where
  -- The loop, with the first error so far.
  unfoldable pub dial_first : List Ip → Option Err → Dialled Conn
  dial_first [] first = failed first
  dial_first (ip ∷ ips) first = elim (base_dial ip) [
    | ok c ↦ connected c
    | err e ↦ dial_first ips (or_else first (some e))
  ]

  abbrev pub Refused : Ip → Type 0
  Refused ip = (e : Err) × (base_dial ip ≡ err e)

  -- The first of the refused addresses has the error.
  abbrev pub FirstRefused : Err → List Ip → Type 0
  FirstRefused e [] = ⊥
  FirstRefused e (ip ∷ ips) = base_dial ip ≡ err e

  -- What the loop is to return of the addresses in their order.
  abbrev pub Explains : List Ip → Dialled Conn → Type 0
  Explains ips (connected c) =
      (before : List Ip) × (ip : Ip) × (after : List Ip) × (ips ≡ before ++ ip ∷ after)
      × All Refused before
      × (base_dial ip ≡ ok c)
  Explains ips (failed (some e)) = All Refused ips × FirstRefused e ips
  Explains ips (failed none) = ips ≡ []

  -- With an error before the addresses, the loop returns that if they are all refused.
  abbrev After : Err → List Ip → Dialled Conn → Type 0
  After e ips (connected c) = Explains ips (connected c)
  After e ips (failed none) = ⊥
  After e ips (failed (some f)) = All Refused ips × (e ≡ f)

  more :
      (e : Err) (ip : Ip) (ips : List Ip) (f : Err) (d : Dialled Conn)
      → base_dial ip ≡ err f
      → After e ips d
      → After e (ip ∷ ips) d
  more e ip ips f (connected c) h (b, i, a, p, r, q) =
      (ip ∷ b, i, a, ap (λ l. ip ∷ l) p, ((f, h), r), q)
  more e ip ips f (failed none) h a = a
  more e ip ips f (failed (some g)) h a = (((f, h), a.0), a.1)

  dial_first-After : (ips : List Ip) (e : Err) → After e ips (dial_first ips (some e))
  unfolding dial_first
  dial_first-After [] e = (tt, refl)
  dial_first-After (ip ∷ ips) e = tried (dial_first-After ips e) (base_dial ip) refl
    where
      tried :
          After e ips (dial_first ips (some e))
          → (r : Result Conn) → base_dial ip ≡ r
          → After e (ip ∷ ips) (elim r [ ok c ↦ connected c | err f ↦ dial_first ips (some e) ])
      tried rest (ok c) h = ([], ip, ips, refl, tt, h)
      tried rest (err f) h = more e ip ips f (dial_first ips (some e)) h rest

  dial_from-After :
      (e : Err) (ip : Ip) (ips : List Ip) (d : Dialled Conn)
      → base_dial ip ≡ err e
      → After e ips d
      → Explains (ip ∷ ips) d
  dial_from-After e ip ips (connected c) h (b, i, a, p, r, q) =
      (ip ∷ b, i, a, ap (λ l. ip ∷ l) p, ((e, h), r), q)
  dial_from-After e ip ips (failed (some g)) h a = (((e, h), a.0), h ∙ ap err a.1)
  dial_from-After e ip ips (failed none) h a = absurd a

  dial_first-Explains : (ips : List Ip) → Explains ips (dial_first ips none)
  unfolding dial_first
  dial_first-Explains [] = refl
  dial_first-Explains (ip ∷ ips) = tried (base_dial ip) refl
    where
      tried :
          (r : Result Conn)
          → base_dial ip ≡ r
          → Explains (ip ∷ ips) (elim r [ ok c ↦ connected c | err f ↦ dial_first ips (some f) ])
      tried (ok c) h = ([], ip, ips, refl, tt, h)
      tried (err f) h =
          dial_from-After f ip ips (dial_first ips (some f)) h (dial_first-After ips f)

module _ {C Conn Ip : Type 0} (cache : Cache C (List Ip)) where
  -- DialContext, of an address at a time; `split` is SplitHostPort, `dial port ip` the base dial of
  -- the joined address, and `shuffle` the order in which the addresses are tried.
  unfoldable pub dial_context :
      (String → Result (String × String))
      → (String → Ip → Result Conn)
      → (List Ip → List Ip)
      → Resolver (List Ip)
      → ℕ
      → ℕ
      → String
      → C
      → Dialled Conn × C
  unfolding resolve dial_first
  dial_context split dial shuffle r now at addr c = elim (split addr) [
    | err e ↦ (failed (some e), c)
    | ok (host, port) ↦
        let out = resolve cache r now at host c in
        elim out.0 [
          | err e ↦ (failed (some e), out.1)
          | ok ips ↦ (dial_first (dial port) (shuffle ips) none, out.1)
        ]
  ]

  module _ (split : String → Result (String × String)) (dial : String → Ip → Result Conn)
      (shuffle : List Ip → List Ip) where
    -- Where the address can be split and its host resolved, DialContext returns the connection of the
    -- first address, in the shuffled order, that is not refused, and if all are refused the error of
    -- the first of them. If there is no address it returns neither a connection nor an error.
    pub dial_context-Explains :
        (r : Resolver (List Ip)) (now at : ℕ) (addr host port : String) (ips : List Ip) (c : C)
        → split addr ≡ ok (host, port)
        → (resolve cache r now at host c).0 ≡ ok ips
        → Explains (dial port) (shuffle ips) (dial_context split dial shuffle r now at addr c).0
    unfolding dial_context
    dial_context-Explains r now at addr host port ips c s h =
        subst (Explains (dial port) (shuffle ips)) (sym result)
          (dial_first-Explains (dial port) (shuffle ips))
      where
        result :
            (dial_context split dial shuffle r now at addr c).0
            ≡ dial_first (dial port) (shuffle ips) none
        result = ground (arith, s, h)
