-- ===== src/Releases/Refresh.antt =====
-- What a refresh of the versions reads and keeps (storeVersions of releases/release/list.go).
use mathlib.Core.Path.{subst}
use go_o11y.Prelude.{
  ◌≡◌, ◌∙◌, refl, sym, ap, arith, ◌∙◌, String, true, Option, none, some, List, [], ◌∷◌, is_some,
  if◌then◌else◌, Dict, get, put, get-put, All, eq_iff,
}
use go_o11y.Errors.{Err, err_is, canceled}
use go_o11y.Span.{Span}
use go_o11y.HttpClient.World.{World}
use go_o11y.Releases.S3.{Outside, S3List, version}
use go_o11y.Releases.Versions.{
  ReleaseList, keys, store, after_version, store_each, store_versions, latest_for, unless_canceled,
  set_ready,
}

abbrev Reads : Type 0
Reads = Dict String × Option Err × World

-- Every version is read in turn, until a read fails: the versions that were read, and the failure.
kept : String → String → Option Err → World → Reads → Reads
kept t v (some f) w rest = ([], some f, w)
kept t v none w rest = ((t, v) ∷ rest.0, rest.1, rest.2)

unfoldable pub read_versions : Outside → S3List → List String → World → Reads
unfolding kept
read_versions o d [] w = ([], none, w)
read_versions o d (t ∷ ts) w =
    let (v, e, w') = version o d t w in kept t v e w' (read_versions o d ts w')

abbrev pub put_each : Dict String → Dict String → Dict String
put_each [] m = m
put_each ((t, v) ∷ vs) m = put_each vs (put t v m)

abbrev pub returned : Option Err → Option Err
returned none = none
returned (some e) = if err_is (some e) canceled then none else some e

put_same : (k v : String) (m : Dict String) → get k m ≡ some v → put k v m ≡ m
unfolding get put
put_same k v [] h = cc h
put_same k v ((j, w) ∷ m) h = ground (arith, eq_iff j k, put_same k v m)

abbrev HasAll : List String → Dict String → Type 0
HasAll ts m = All (λ t. is_some (get t m) ≡ true) ts

HasAll-put :
    (k v : String) (ts : List String) (m : Dict String) → HasAll ts m → HasAll ts (put k v m)
HasAll-put k v [] m h = tt
HasAll-put k v (t ∷ ts) m h = (ground (arith, get-put k t v m, h.0), HasAll-put k v ts m h.1)

HasAll-cons :
    (k v : String) (ts : List String) (m : Dict String) → HasAll ts m → HasAll ts ((k, v) ∷ m)
unfolding get
HasAll-cons k v [] m h = tt
HasAll-cons k v (t ∷ ts) m h = (ground (arith, h.0), HasAll-cons k v ts m h.1)

HasAll-keys : (m : Dict String) → HasAll (keys m) m
unfolding get
HasAll-keys [] = tt
HasAll-keys ((k, v) ∷ m) = (ground (arith, eq_iff k k), HasAll-cons k v (keys m) m (HasAll-keys m))

module _ {C : Type 0} (o : Outside) where
  store-put :
      (t v : String) (l : ReleaseList C)
      → l.pinned_version ≡ ""
      → is_some (get t l.cached_version) ≡ true
      → store t v l ≡ record l { cached_version = put t v l.cached_version }
  unfolding store
  store-put t v l p h = ground (
    arith,
    p,
    h,
    put_same t v l.cached_version,
    eq_iff v (latest_for t l),
    eq_iff l.pinned_version "",
  )

  -- How the loop, from the list `l`, compares with the reads.
  abbrev Compares :
      ReleaseList C → Dict String × Option Err × World → Option Err × Span × ReleaseList C → Type 0
  Compares l r out =
      (out.0 ≡ returned r.1)
      × (out.2.cached_version ≡ put_each r.0 l.cached_version)
      × (out.2.ready ≡ (if is_some r.1 then l.ready else true))
      × (out.2.world ≡ r.2)

  after_version-kept :
      (t v : String) (e : Option Err) (l : ReleaseList C) (r : Reads)
      (out : Option Err × Span × ReleaseList C)
      → Compares (record l { cached_version = put t v l.cached_version }) r out
      → Compares l (kept t v e l.world r) (after_version t v e l out)
  unfolding after_version kept unless_canceled
  after_version-kept t v (some f) l r out h = (refl, refl, refl, refl)
  after_version-kept t v none l r out h = h

  store_each-read_versions :
      (ts : List String) (l : ReleaseList C)
      → l.pinned_version ≡ ""
      → HasAll ts l.cached_version
      → Compares l (read_versions o l.s3_list ts l.world) (store_each o ts l)
  unfolding store_each read_versions set_ready
  store_each-read_versions [] l p h = (refl, refl, refl, refl)
  store_each-read_versions (t ∷ ts) l p h =
      let (v, e, w) = version o l.s3_list t l.world in
      let read = record l { world = w } in
      let m = record read { cached_version = put t v l.cached_version } in
      let r = read_versions o l.s3_list ts w in
      subst (λ x. Compares l (kept t v e w r) (after_version t v e read (store_each o ts x)))
        (sym (store-put t v read p h.0))
        (after_version-kept t v e read r (store_each o ts m)
          (store_each-read_versions ts m p (HasAll-put t v ts l.cached_version h.1)))

  -- A refresh of a list without a pinned version keeps the versions that it read before the first
  -- failure, and only those; it reports that failure, unless the failure is that its context was
  -- canceled, which it reports as none; and it makes the list ready only if no read failed. So it is
  -- as if each version were stored whether or not it has changed.
  pub store_versions-read_versions :
      (l : ReleaseList C)
      → l.pinned_version ≡ ""
      → let r = read_versions o l.s3_list (keys l.cached_version) l.world in
        let out = store_versions o l in
        (out.0 ≡ returned r.1)
        × (out.1.cached_version ≡ put_each r.0 l.cached_version)
        × (out.1.ready ≡ (if is_some r.1 then l.ready else true))
        × (out.1.world.sent ≡ r.2.sent)
  unfolding store_versions
  store_versions-read_versions l p =
      let h = store_each-read_versions (keys l.cached_version) l p (HasAll-keys l.cached_version) in
      (h.0, h.1, h.2, ap (λ (x : World). x.sent) h.3)

  -- What no refresh changes.
  abbrev pub Untouched : ReleaseList C → ReleaseList C → Type 0
  Untouched l m =
      (m.cache ≡ l.cache)
      × (m.s3_list ≡ l.s3_list)
      × (m.pinned_version ≡ l.pinned_version)
      × (m.name ≡ l.name)

  after_version-Untouched :
      (t v : String) (e : Option Err) (l : ReleaseList C) (out : Option Err × Span × ReleaseList C)
      → Untouched l out.2
      → Untouched l (after_version t v e l out).2
  unfolding after_version
  after_version-Untouched t v none l out h = h
  after_version-Untouched t v (some f) l out h = (refl, refl, refl, refl)

  store-Untouched : (t v : String) (l : ReleaseList C) → Untouched l (store t v l)
  unfolding store
  store-Untouched t v l = ground arith

  store_each-Untouched : (ts : List String) (l : ReleaseList C) → Untouched l (store_each o ts l).2
  unfolding store_each set_ready
  store_each-Untouched [] l = (refl, refl, refl, refl)
  store_each-Untouched (t ∷ ts) l =
      let (v, e, w) = version o l.s3_list t l.world in
      let read = record l { world = w } in
      let (a, b, c, d) = store-Untouched t v read in
      let (a', b', c', d') = store_each-Untouched ts (store t v read) in
      after_version-Untouched t v e read (store_each o ts (store t v read))
        (a' ∙ a, b' ∙ b, c' ∙ c, d' ∙ d)

  pub store_versions-Untouched : (l : ReleaseList C) → Untouched l (store_versions o l).1
  unfolding store_versions
  store_versions-Untouched l = store_each-Untouched (keys l.cached_version) l
