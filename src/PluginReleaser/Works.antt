-- ===== src/PluginReleaser/Works.antt =====
-- The works that a plugin is compiled by, and how they are added (build of
-- plugin/releaser/releaser.go).
use Prim.Native.String.{◌++◌ as concat}
use go_o11y.Prelude.{
  ◌+◌, ◌≤◌, ◌<◌, ◌≡◌, ◌≢◌, refl, sym, ap, ◌∙◌, arith, String, false, none, List, [], ◌∷◌, ◌++◌,
  append_assoc, append-nil, length, length-append, All, All-append, str_eq, eq_iff, Bool-cases, inl,
  inr, ltb, if◌then◌else◌, Dict,
}
use native.Mathlib.Decide.{dec_lt}
use go_o11y.Compiler.{Work, Parallel, Added, panicked, blocked, returned, add}
use go_o11y.PluginReleaser.{
  Outside, Platforms, PluginReleaser, add_each, works, work_for, for_archs,
}

-- What Add does not panic on.
pub IsWork : Work → Type 0
IsWork w =
    (str_eq w.name "" ≡ false)
    × (str_eq w.target "" ≡ false)
    × (str_eq w.source "" ≡ false)
    × (w.result ≡ none)

add_cases :
    (w : Work) (t : Parallel)
    → IsWork w
    → t.closed ≡ false
    → add w (λ i. "") t ≡ (
        if ltb (length t.work) 100
        then returned (record t { work = t.work ++ w ∷ [] })
        else blocked)
unfolding add IsWork
add_cases w t (a, b, c, d) e = ground (arith, a, b, c, d, e)

add_room :
    (w : Work) (t : Parallel)
    → IsWork w
    → t.closed ≡ false
    → length t.work < 100
    → add w (λ i. "") t ≡ returned (record t { work = t.work ++ w ∷ [] })
add_room w t a c h = add_cases w t a c ∙ ground (arith, h)

add_full :
    (w : Work) (t : Parallel)
    → IsWork w
    → t.closed ≡ false
    → 100 ≤ length t.work
    → add w (λ i. "") t ≡ blocked
add_full w t a c h = add_cases w t a c ∙ ground (arith, h)

abbrev go_on : List Work → Added → Added
go_on ws panicked = panicked
go_on ws blocked = blocked
go_on ws (returned t) = add_each ws t

add_each-cons :
    (w : Work) (ws : List Work) (t : Parallel) → add_each (w ∷ ws) t ≡ go_on ws (add w (λ i. "") t)
unfolding add_each
add_each-cons w ws t = go (add w (λ i. "") t)
  where
    go :
        (a : Added)
        → elim a as (λ _. Added) [
          | panicked ↦ panicked
          | blocked ↦ blocked
          | returned t' ↦ add_each ws t'
        ]
          ≡ go_on ws a
    go panicked = refl
    go blocked = refl
    go (returned t') = refl

-- Works are added as long as the channel has room.
pub add_each-room :
    (ws : List Work) (t : Parallel)
    → All IsWork ws
    → t.closed ≡ false
    → length t.work + length ws ≤ 100
    → add_each ws t ≡ returned (record t { work = t.work ++ ws })
unfolding add_each
add_each-room [] t a c h = ap (λ l. returned (record t { work = l })) (sym (append-nil t.work))
add_each-room (w ∷ ws) t a c h =
    let more = record t { work = t.work ++ w ∷ [] } in
    add_each-cons w ws t
    ∙ ap (go_on ws) (add_room w t a.0 c (omega (arith, h)))
    ∙ add_each-room ws more a.1 c (omega (arith, h, length-append t.work (w ∷ [])))
    ∙ ap (λ l. returned (record t { work = l })) (append_assoc t.work (w ∷ []) ws)

pub add_each-full :
    (ws : List Work) (t : Parallel)
    → All IsWork ws
    → t.closed ≡ false
    → 100 < length t.work + length ws
    → length t.work ≤ 100
    → add_each ws t ≡ blocked
unfolding add_each
add_each-full [] t a c h k = absurd (omega (arith, h, k))
add_each-full (w ∷ ws) t a c h k = elim (dec_lt (length t.work) 100) [
  | no n ↦ add_each-cons w ws t ∙ ap (go_on ws) (add_full w t a.0 c (omega (arith, n)))
  | yes y ↦
      let more = record t { work = t.work ++ w ∷ [] } in
      add_each-cons w ws t
      ∙ ap (go_on ws) (add_room w t a.0 c y)
      ∙ add_each-full ws more a.1 c (omega (arith, h, length-append t.work (w ∷ [])))
          (omega (arith, y, length-append t.work (w ∷ [])))
]

module _ (o : Outside) (r : PluginReleaser) where
  -- The name of the binary of each platform is not empty.
  abbrev pub HasName : String × List String → Type 0
  HasName (os, archs) =
      All (λ arch. o.release.join (r.plugin ∷ os ∷ arch ∷ r.plugin ∷ []) ≢ "") archs

  not_empty : (s : String) → s ≢ "" → str_eq s "" ≡ false
  not_empty s n = elim (Bool-cases (str_eq s "")) [
    | inl e ↦ absurd (n ((eq_iff s "").0 e))
    | inr e ↦ e
  ]

  for_archs-IsWork :
      (source dir os : String) (archs : List String)
      → str_eq source "" ≡ false
      → str_eq dir "" ≡ false
      → HasName (os, archs)
      → All IsWork (for_archs o r source dir os archs)
  unfolding work_for IsWork
  for_archs-IsWork source dir os [] s d h = tt
  for_archs-IsWork source dir os (a ∷ archs) s d h = (
    (not_empty (o.release.join (r.plugin ∷ os ∷ a ∷ r.plugin ∷ [])) h.0, d, s, refl),
    for_archs-IsWork source dir os archs s d h.1,
  )

  pub works-IsWork :
      (source dir : String) (ps : Dict (List String))
      → str_eq source "" ≡ false
      → str_eq dir "" ≡ false
      → All HasName ps
      → All IsWork (works o r source dir ps)
  works-IsWork source dir [] s d h = tt
  works-IsWork source dir ((os, archs) ∷ ps) s d h =
      All-append IsWork (for_archs o r source dir os archs) (works o r source dir ps)
        (for_archs-IsWork source dir os archs s d h.0) (works-IsWork source dir ps s d h.1)

  -- Each platform, with each of its architectures.
  abbrev with_os : String → List String → List (String × String)
  with_os os [] = []
  with_os os (arch ∷ archs) = (os, arch) ∷ with_os os archs

  abbrev pub pairs : Platforms → List (String × String)
  pairs [] = []
  pairs ((os, archs) ∷ ps) = with_os os archs ++ pairs ps

  -- The work of a platform, as the compiler is to get it.
  abbrev pub platform_work : String → String → String → String → Work
  platform_work source dir os arch = record {
    name = o.release.join (r.plugin ∷ os ∷ arch ∷ r.plugin ∷ []);
    source = source;
    target = dir;
    with_coverage = false;
    tags = "";
    environment = concat "GOOS=" os ∷ concat "GOARCH=" arch ∷ [];
    result = none;
  }

  abbrev pub works_of : String → String → List (String × String) → List Work
  works_of source dir [] = []
  works_of source dir ((os, arch) ∷ l) = platform_work source dir os arch ∷ works_of source dir l

  works_of-append :
      (source dir : String) (a b : List (String × String))
      → works_of source dir (a ++ b) ≡ works_of source dir a ++ works_of source dir b
  works_of-append source dir [] b = refl
  works_of-append source dir ((os, arch) ∷ a) b =
      ap (λ l. platform_work source dir os arch ∷ l) (works_of-append source dir a b)

  for_archs-works_of :
      (source dir os : String) (archs : List String)
      → for_archs o r source dir os archs ≡ works_of source dir (with_os os archs)
  unfolding work_for
  for_archs-works_of source dir os [] = refl
  for_archs-works_of source dir os (a ∷ archs) =
      ap (λ l. platform_work source dir os a ∷ l) (for_archs-works_of source dir os archs)

  pub works-works_of :
      (source dir : String) (ps : Dict (List String))
      → works o r source dir ps ≡ works_of source dir (pairs ps)
  works-works_of source dir [] = refl
  works-works_of source dir ((os, archs) ∷ ps) =
      ap (λ l. l ++ works o r source dir ps) (for_archs-works_of source dir os archs)
      ∙ ap (λ l. works_of source dir (with_os os archs) ++ l) (works-works_of source dir ps)
      ∙ sym (works_of-append source dir (with_os os archs) (pairs ps))
