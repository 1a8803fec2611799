-- ===== src/Releases/Listed.antt =====
-- The releases that stand in a text of the S3 list (releases/release/list_s3.go).
use mathlib.Core.List.{Memᴰ}
use go_o11y.Prelude.{
  ◌≡◌, refl, arith, String, Bool, true, false, ◌&&◌, Option, none, some, List, [], ◌∷◌, contains,
  if◌then◌else◌,
}
use go_o11y.Errors.{Err, Result, ok, err}
use go_o11y.HttpClient.World.{World}
use go_o11y.Releases.{Requirements, Release}
use go_o11y.Releases.S3.{Outside, decode_release, release_of, release_in, value_of, unless_missing}

module _ (o : Outside) (base_url : String) where
  -- The release stands in a line that names its platform and its architecture, of a text that was
  -- read.
  abbrev pub Listed : Requirements → Release → Type 0
  Listed rq r =
      (t line : String) × Memᴰ line (o.scan t)
      × (contains line rq.platform ≡ true)
      × (contains line rq.arch ≡ true)
      × (release_of base_url rq line ≡ some r)

  -- The line of a release that decodeRelease finds.
  abbrev LineOf : Requirements → Release → List String → Type 0
  LineOf rq r lines =
      (line : String) × Memᴰ line lines
      × (contains line rq.platform ≡ true)
      × (contains line rq.arch ≡ true)
      × (release_of base_url rq line ≡ some r)

  decode_release-LineOf :
      (rq : Requirements) (r : Release) (lines : List String)
      → decode_release base_url rq lines ≡ some (ok r)
      → LineOf rq r lines
  unfolding decode_release
  decode_release-LineOf rq r [] h = cc
  decode_release-LineOf rq r (l ∷ ls) h =
      pick (contains l rq.platform) (contains l rq.arch) (release_of base_url rq l) refl refl refl h
        (decode_release-LineOf rq r ls)
    where
      pick :
          (p a : Bool) (x : Option Release)
          → contains l rq.platform ≡ p
          → contains l rq.arch ≡ a
          → release_of base_url rq l ≡ x
          → (if p && a
              then elim x as (λ _. Option (Result Release)) [ none ↦ none | some y ↦ some (ok y) ]
              else decode_release base_url rq ls)
            ≡ some (ok r)
          → (decode_release base_url rq ls ≡ some (ok r) → LineOf rq r ls)
          → LineOf rq r (l ∷ ls)
      pick true true (some y) hp ha hx q k = (l, Memᴰ.head refl, hp, ha, cc)
      pick true true none hp ha hx q k = cc
      pick true false x hp ha hx q k = let z = k q in (z.0, Memᴰ.tail z.1, z.2, z.3, z.4)
      pick false a x hp ha hx q k = let z = k q in (z.0, Memᴰ.tail z.1, z.2, z.3, z.4)

  pub release_in-Listed :
      (rq : Requirements) (r : Release) (t : Option String)
      → release_in o base_url rq t ≡ some (some r)
      → Listed rq r
  unfolding release_in
  release_in-Listed rq r none h = cc
  release_in-Listed rq r (some t) h = go (decode_release base_url rq (o.scan t)) refl h
    where
      go :
          (x : Option (Result Release))
          → decode_release base_url rq (o.scan t) ≡ x
          → elim x as (λ _. Option (Option Release)) [ none ↦ none | some y ↦ some (value_of y) ]
            ≡ some (some r)
          → Listed rq r
      go none e q = cc
      go (some (err f)) e q = cc
      go (some (ok y)) e q =
          let z = decode_release-LineOf rq r (o.scan t) (cc (e, q)) in (t, z.0, z.1, z.2, z.3, z.4)

  pub unless_missing-some :
      (x : Option (Option Release)) (e f : Option Err) (w w' : World) (r : Release)
      → unless_missing x e w ≡ some (some r, f, w')
      → x ≡ some (some r)
  unfolding unless_missing
  unless_missing-some none e f w w' r h = cc
  unless_missing-some (some x) e f w w' r h = ground arith

pub release_of-version :
    (base_url : String) (rq : Requirements) (r : Release) (line : String)
    → release_of base_url rq line ≡ some r
    → r.version ≡ rq.version
unfolding release_of
release_of-version base_url rq r line h = ground arith
