-- ===== src/Releases/Versions.antt =====
-- The list of versions and releases: List of releases/release/list.go with its operations. One
-- refresh runs at a time, and a reader sees the state between two of its assignments.
use Prim.Native.String.{◌++◌ as concat}
use go_o11y.Prelude.{
  ℕ, String, Bool, true, false, not, Option, none, some, List, [], ◌∷◌, ◌++◌, str_eq, if◌then◌else◌,
  Dict, get, put,
}
use go_o11y.Errors.{Err, var, wrap, err_is, canceled}
use go_o11y.Span.{Span, start, add_field, text, num, flag, end_span}
use go_o11y.HttpClient.World.{World}
use go_o11y.Cache.{Cache}
use go_o11y.Releases.{Requirements, Release, err_list_version_not_ready, make_key}
use go_o11y.Releases.S3.{Outside, S3List, new_s3_list, version, lookup_s3}

abbrev pub default_release_type : String
default_release_type = "release"

-- `world` is the state of the HTTP client of the S3 list, with the spans that have ended.
pub record ReleaseList (C : Type 0) : Type 0 where
  pub name : String
  pub s3_list : S3List
  pub ready : Bool
  pub cached_version : Dict String
  pub pinned_version : String
  pub cache : C
  pub world : World

abbrev pub keys {ℓ} : {V : Type ℓ} → Dict V → List String
keys [] = []
keys ((k, v) ∷ m) = k ∷ keys m

abbrev text_or_empty : Option String → String
text_or_empty none = ""
text_or_empty (some v) = v

abbrev put_empty : List String → Dict String → Dict String
put_empty [] m = m
put_empty (t ∷ ts) m = put_empty ts (put t "" m)

field_prefix : String → String
field_prefix release_type = concat "release." (concat release_type ".")

-- The error of Version as storeVersions returns it.
unfoldable pub unless_canceled : Err → Option Err
unless_canceled e = if err_is (some e) canceled then none else some e

module _ {C : Type 0} where
  -- LatestFor
  unfoldable pub latest_for : String → ReleaseList C → String
  latest_for release_type l =
      if not (str_eq l.pinned_version "")
      then l.pinned_version
      else text_or_empty (get release_type l.cached_version)

  -- Latest
  unfoldable pub latest : ReleaseList C → String
  unfolding latest_for
  latest l = latest_for default_release_type l

  -- The readiness check of HealthChecks; there is no liveness check.
  unfoldable pub ready_check : ReleaseList C → Option Err
  ready_check l = if not l.ready then some (var err_list_version_not_ready) else none

  -- atomicBool.Set
  unfoldable pub set_ready : Bool → ReleaseList C → ReleaseList C
  set_ready b l = record l { ready = b }

  -- An assignment of storeVersions under the lock, if the version has changed.
  unfoldable pub store : String → String → ReleaseList C → ReleaseList C
  unfolding latest_for
  store release_type v l =
      if not (str_eq v (latest_for release_type l))
      then record l { cached_version = put release_type v l.cached_version }
      else l

  unfoldable pub stored_field : String → String → ReleaseList C → Span
  unfolding latest_for field_prefix
  stored_field release_type v l =
      if not (str_eq v (latest_for release_type l))
      then add_field (concat (field_prefix release_type) "stored") (flag true) ∷ []
      else []

  -- A round of the loop of storeVersions: what Version answered, and the rounds after a success.
  unfoldable pub after_version :
      String
      → String
      → Option Err
      → ReleaseList C
      → Option Err × Span × ReleaseList C
      → Option Err × Span × ReleaseList C
  unfolding unless_canceled stored_field
  after_version t v (some f) l rest =
      (unless_canceled f, add_field (concat (field_prefix t) "changed") (flag false) ∷ [], l)
  after_version t v none l rest = (
    rest.0,
    add_field (concat (field_prefix t) "changed") (flag false)
          ∷ add_field (concat (field_prefix t) "version") (text v)
          ∷ stored_field t v l
        ++ rest.1,
    rest.2,
  )

  -- The loop of storeVersions: its error, what it calls on the span, and the list.
  unfoldable pub store_each :
      Outside → List String → ReleaseList C → Option Err × Span × ReleaseList C
  unfolding set_ready store after_version
  store_each o [] l = (none, [], set_ready true l)
  store_each o (t ∷ ts) l =
      let (v, e, w) = version o l.s3_list t l.world in
      let read = record l { world = w } in
      let rest = store_each o ts (store t v read) in after_version t v e read rest

  end_in : String → Span → Option Err → ReleaseList C → ReleaseList C
  end_in name calls e l =
      let span = start name (record { kind = none }) ∷ calls ++ end_span e in
      record l { world = record l.world { spans = l.world.spans ++ span ∷ [] } }

  -- storeVersions
  unfoldable pub store_versions : Outside → ReleaseList C → Option Err × ReleaseList C
  unfolding store_each end_in
  store_versions o l =
      let out = store_each o (keys l.cached_version) l in
      (out.0, end_in "release-list: store-versions" out.1 out.0 out.2)

-- The cache keeps pointers, which may be nil.
module _ {C : Type 0} (cache : Cache C (Option Release)) where
  -- The list that NewList makes before it reads the versions.
  unfoldable pub empty_list :
      Outside → String → String → String → List String → World → ReleaseList C
  empty_list o name pinned_version base_url types w = record {
    name = name;
    s3_list = new_s3_list o base_url;
    ready = false;
    cached_version = put_empty types ((default_release_type, "") ∷ []);
    pinned_version = pinned_version;
    cache = cache.empty;
    world = w;
  }

  -- NewList
  unfoldable pub new_list :
      Outside → String → String → String → List String → World → Option Err × ReleaseList C
  unfolding empty_list
  new_list o name pinned_version base_url types w =
      let out = store_versions o (empty_list o name pinned_version base_url types w) in
      (
        elim out.0 [
          | none ↦ none
          | some e ↦ some (wrap "failed to initialise list" (var err_list_version_not_ready))
        ],
        out.1,
      )

  unfoldable pub cache_get : ℕ → Requirements → C → Option (Option Release) × C
  unfolding make_key
  cache_get now rq c = cache.get now (make_key rq) c

  -- The item has no ExpireAt.
  unfoldable pub cache_add : Requirements → Option Release → C → C
  unfolding make_key
  cache_add rq r c = cache.set (make_key rq) r none c

  -- A lookup that succeeded is cached.
  unfoldable pub add_found : Requirements → Option Release → Option Err → C → C
  unfolding cache_add
  add_found rq r none c = cache_add rq r c
  add_found rq r (some e) c = c

  requirement_fields : Requirements → Span
  requirement_fields rq =
      add_field "release.version" (text rq.version)
      ∷ add_field "release.platform" (text rq.platform)
      ∷ add_field "release.arch" (text rq.arch)
      ∷ []

  -- The part of Lookup after a miss.
  unfoldable pub look_up_missed :
      Outside → Requirements → ReleaseList C → Option (Option Release × Option Err × ReleaseList C)
  unfolding add_found
  look_up_missed o rq l = elim (lookup_s3 o l.s3_list rq l.world) [
    | none ↦ none
    | some (r, e, w) ↦ some (r, e, record l { world = w; cache = add_found rq r e l.cache })
  ]

  unfoldable pub ended :
      Requirements
      → ℕ
      → Option Release × Option Err × ReleaseList C
      → Option Release × Option Err × ReleaseList C
  unfolding end_in requirement_fields
  ended rq hit (r, e, l) =
      let calls = requirement_fields rq ++ add_field "cache_hit" (num hit) ∷ [] in
      (r, e, end_in "release-list: lookup-requirement" calls e l)

  unfoldable pub answer :
      Option (Option Release)
      → Requirements
      → Option (Option Release × Option Err × ReleaseList C)
      → ReleaseList C
      → Option (Option Release × Option Err × ReleaseList C)
  unfolding ended
  answer (some r) rq missed l = some (ended rq 1 (r, none, l))
  answer none rq none l = none
  answer none rq (some out) l = some (ended rq 0 out)

  -- Lookup, where the cache is asked at the time `now`. A panic of the decoder is `none`.
  unfoldable pub lookup :
      Outside
      → ℕ
      → Requirements
      → ReleaseList C
      → Option (Option Release × Option Err × ReleaseList C)
  unfolding cache_get look_up_missed answer
  lookup o now rq l =
      let (hit, c) = cache_get now rq l.cache in
      let asked = record l { cache = c } in answer hit rq (look_up_missed o rq asked) asked
