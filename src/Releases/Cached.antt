-- ===== src/Releases/Cached.antt =====
-- Which releases a lookup answers with, whatever the cache keeps (Lookup of releases/release/list.go
-- and of list_s3.go).
use mathlib.Core.Path.{subst}
use go_o11y.Prelude.{◌≡◌, refl, sym, ap, ◌∙◌, ℕ, String, false, Option, none, some, List}
use go_o11y.Errors.{Err}
use go_o11y.Prelude.Partial.{some_inj}
use go_o11y.HttpClient.Call.{call}
use go_o11y.HttpClient.World.{World}
use go_o11y.Cache.{Cache, Sound, empty-Sound, get-Sound, set-Sound}
use go_o11y.Releases.{Requirements, Release, make_key}
use go_o11y.Releases.Keys.{has_bar, make_key_inj}
use go_o11y.Releases.Listed.{Listed, release_in-Listed, unless_missing-some, release_of-version}
use go_o11y.Releases.Refresh.{store_versions-Untouched}
use go_o11y.Releases.S3.{
  new_s3_list, Outside, S3List, release_in, release_request, last_after, lookup_s3, Looked,
}
use go_o11y.Releases.Versions.{
  ReleaseList, empty_list, store_versions, lookup, ended, answer, cache_get, add_found,
  look_up_missed,
}

-- Neither the version nor the platform has the separator of the keys.
abbrev pub Barless : Requirements → Type 0
Barless rq = (has_bar rq.version ≡ false) × (has_bar rq.platform ≡ false)

module _ {C : Type 0} (cache : Cache C (Option Release)) (o : Outside) where
  -- The runs of a list: it is refreshed and asked for releases, in any order; `Asked` are the
  -- requirements of the lookups.
  pub data Run (Asked : Requirements → Type 0) (l : ReleaseList C) : ReleaseList C → Type 0 where
    made : Run Asked l l
    refreshed : {m : ReleaseList C} → Run Asked l m → Run Asked l (store_versions o m).1
    looked_up :
        {m n : ReleaseList C} (now : ℕ) (rq : Requirements) (r : Option Release) (e : Option Err)
        → Asked rq
        → Run Asked l m
        → lookup cache o now rq m ≡ some (r, e, n)
        → Run Asked l n

module _ {C : Type 0} (cache : Cache C (Option Release)) (o : Outside) (d : S3List) where
  lookup_s3-Listed :
      (rq : Requirements) (w w' : World) (r : Release) (e : Option Err)
      → lookup_s3 o d rq w ≡ some (some r, e, w')
      → Listed o d.base_url rq r
  unfolding lookup_s3
  lookup_s3-Listed rq w w' r e h =
      let out = call o.http o.policies d.client (release_request o d.base_url rq) w in
      let t = last_after w.decoded out.1.decoded in
      release_in-Listed o d.base_url rq r t
        (unless_missing-some o d.base_url (release_in o d.base_url rq t) out.0 e out.1 w' r h)

  -- What may be kept under a key: a release listed for requirements with the key.
  abbrev pub Kept : ℕ → String → Option Release → Type 0
  Kept now k v =
      (rq : Requirements) × (make_key rq ≡ k)
      × Barless rq
      × ((r : Release) → v ≡ some r → Listed o d.base_url rq r)

  abbrev pub AllKept : C → Type 0
  AllKept = Sound cache Kept

  add_found-AllKept :
      (rq : Requirements) (r : Option Release) (e : Option Err) (c : C)
      → Barless rq
      → ((x : Release) → r ≡ some x → Listed o d.base_url rq x)
      → AllKept c
      → AllKept (add_found cache rq r e c)
  unfolding add_found
  add_found-AllKept rq r none c b h s =
      set-Sound cache Kept (make_key rq) r none c (λ now u. (rq, refl, b, h)) s
  add_found-AllKept rq r (some e) c b h s = s

  -- A lookup of the requirements, with its answer.
  pub record Answered (rq : Requirements) (r : Option Release) (c : C) : Type 0 where
    pub kept : AllKept c
    pub listed : (x : Release) → r ≡ some x → Listed o d.base_url rq x

  -- What a lookup by the list `l` gives.
  abbrev AnsweredIn :
      Requirements → ReleaseList C → Option Release × Option Err × ReleaseList C → Type 0
  AnsweredIn rq l x = Answered rq x.0 x.2.cache × (x.2.s3_list ≡ l.s3_list)

  look_up_missed-Answered :
      (rq : Requirements) (l : ReleaseList C) (out : Option Release × Option Err × ReleaseList C)
      → Barless rq
      → AllKept l.cache
      → l.s3_list ≡ d
      → look_up_missed cache o rq l ≡ some out
      → AnsweredIn rq l out
  unfolding look_up_missed
  look_up_missed-Answered rq l out b s q h =
      go (lookup_s3 o l.s3_list rq l.world) (ap (λ x. lookup_s3 o x rq l.world) (sym q)) h
    where
      go :
          (x : Looked)
          → lookup_s3 o d rq l.world ≡ x
          → elim x as (λ _. Option (Option Release × Option Err × ReleaseList C)) [
            | none ↦ none
            | some (y, f, w) ↦
                some (y, f, record l { world = w; cache = add_found cache rq y f l.cache })
          ]
            ≡ some out
          → AnsweredIn rq l out
      go none p i = cc
      go (some (y, f, w)) p i =
          let listed : (x : Release) → y ≡ some x → Listed o d.base_url rq x =
            λ x k. lookup_s3-Listed rq l.world w x f (p ∙ ap (λ v. some (v, f, w)) k) in
          subst (AnsweredIn rq l) (some_inj i)
            (record { kept = add_found-AllKept rq y f l.cache b listed s; listed = listed }, refl)

  ended-AnsweredIn :
      (rq : Requirements) (hit : ℕ) (l : ReleaseList C)
      (out : Option Release × Option Err × ReleaseList C)
      → AnsweredIn rq l out
      → AnsweredIn rq l (ended cache rq hit out)
  unfolding ended
  ended-AnsweredIn rq hit l out h = h

  hit-Listed :
      (now : ℕ) (rq : Requirements) (c : C) (r : Option Release)
      → Barless rq
      → AllKept c
      → (cache.get now (make_key rq) c).0 ≡ some r
      → (x : Release) → r ≡ some x
      → Listed o d.base_url rq x
  hit-Listed now rq c r b s h x e =
      let (rq', same_key, b', listed) = s now (make_key rq) r h in
      subst (λ y. Listed o d.base_url y x) (make_key_inj rq' rq b'.0 b.0 b'.1 b.1 same_key)
        (listed x e)

  asked : ℕ → Requirements → ReleaseList C → ReleaseList C
  asked now rq l = record l { cache = (cache.get now (make_key rq) l.cache).1 }

  asked-AllKept :
      (now : ℕ) (rq : Requirements) (l : ReleaseList C)
      → AllKept l.cache
      → AllKept (asked now rq l).cache
  unfolding asked
  asked-AllKept now rq l s = get-Sound cache Kept now (make_key rq) l.cache s

  lookup-Answered :
      (now : ℕ) (rq : Requirements) (l : ReleaseList C)
      (out : Option Release × Option Err × ReleaseList C)
      → Barless rq
      → AllKept l.cache
      → l.s3_list ≡ d
      → lookup cache o now rq l ≡ some out
      → AnsweredIn rq l out
  unfolding lookup cache_get answer asked
  lookup-Answered now rq l out b s q h =
      go (cache.get now (make_key rq) l.cache).0 (look_up_missed cache o rq (asked now rq l)) refl
        refl h
    where
      go :
          (hit : Option (Option Release))
          (missed : Option (Option Release × Option Err × ReleaseList C))
          → (cache.get now (make_key rq) l.cache).0 ≡ hit
          → look_up_missed cache o rq (asked now rq l) ≡ missed
          → answer cache hit rq missed (asked now rq l) ≡ some out
          → AnsweredIn rq l out
      go (some r) missed p m i = subst (AnsweredIn rq l) (some_inj i) (
          ended-AnsweredIn rq 1 l (r, none, asked now rq l)
            (
              record {
                kept = asked-AllKept now rq l s;
                listed = hit-Listed now rq l.cache r b s p;
              },
              refl,
            ))
      go none none p m i = cc
      go none (some x) p m i = subst (AnsweredIn rq l) (some_inj i) (
          ended-AnsweredIn rq 0 l x
            (look_up_missed-Answered rq (asked now rq l) x b (asked-AllKept now rq l s) q m))

  abbrev Good : ReleaseList C → Type 0
  Good l = AllKept l.cache × (l.s3_list ≡ d)

  Run-Good :
      (Asked : Requirements → Type 0) (l m : ReleaseList C)
      → ((rq : Requirements) → Asked rq → Barless rq)
      → Run cache o Asked l m
      → Good l
      → Good m
  Run-Good Asked l m barless made g = g
  Run-Good Asked l m barless (refreshed {m = n} run) g =
      let (s, q) = Run-Good Asked l n barless run g in
      let (a, b, _, _) = store_versions-Untouched o n in (subst AllKept (sym a) s, b ∙ q)
  Run-Good Asked l m barless (looked_up {m = n} now rq r e b run h) g =
      let (s, q) = Run-Good Asked l n barless run g in
      let (a, k) = lookup-Answered now rq n (r, e, m) (barless rq b) s q h in (a.kept, k ∙ q)

-- After any run of refreshes and lookups of a new list, whatever the cache evicts and whatever the
-- server answers, a release that a lookup returns stands, in a text that the S3 list read, in a line
-- that names the platform and the architecture asked for, and has the version asked for; so no
-- lookup gives the release of another. The versions and platforms of all these lookups do not
-- contain the separator of the cache's keys.
pub Run-Listed :
    {C : Type 0} (cache : Cache C (Option Release)) (o : Outside) (name pinned base_url : String)
    (types : List String) (w : World) (Asked : Requirements → Type 0)
    → let l = empty_list cache o name pinned base_url types w in
      (m n : ReleaseList C) (now : ℕ) (rq : Requirements) (r : Release) (e : Option Err)
      → ((q : Requirements) → Asked q → Barless q)
      → Run cache o Asked l m
      → Barless rq
      → lookup cache o now rq m ≡ some (some r, e, n)
      → Listed o base_url rq r × (r.version ≡ rq.version)
unfolding empty_list new_s3_list
Run-Listed cache o name pinned base_url types w Asked m n now rq r e barless run b h =
    let l = empty_list cache o name pinned base_url types w in
    let (s, q) =
      Run-Good cache o l.s3_list Asked l m barless run
        (empty-Sound cache (Kept cache o l.s3_list), refl) in
    let (a, _) = lookup-Answered cache o l.s3_list now rq m (some r, e, n) b s q h in
    let listed = a.listed r refl in (listed, release_of-version base_url rq r listed.1 listed.5)
