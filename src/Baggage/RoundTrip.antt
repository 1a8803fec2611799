-- ===== src/Baggage/RoundTrip.antt =====
-- The depth of flattening and the golden trace go through the baggage unchanged
-- (AddExtrasToBaggage and ExtrasFromBaggage of o11y/o11y.go).
use Prim.Native.String.{◌++◌ as concat}
use mathlib.Core.Path.{subst}
use go_o11y.Prelude.{
  ◌≡◌, refl, sym, ap, ◌∙◌, arith, ℕ, String, Bool, true, false, Option, none, some, List, [], ◌∷◌,
  ◌++◌, str_eq, eq_iff, ltb, is_some, if◌then◌else◌, Dict, get, put, get-put, Distinct,
  put-Distinct, or_else, Bool-cases, inl, inr, put_all, append_cancel_left,
}
use go_o11y.Prelude.Int.{ℤ, pos, pos_part}
use go_o11y.Baggage.{
  Outside, BaggageContext, Header, header_add, values_of, put_golden, extras_of, unless_empty,
  add_extras_to_baggage, add_golden, extras_from_baggage, get_baggage, with_baggage,
}
use go_o11y.Baggage.Prefixes.{trim_prefix, trim_prefix-cases, flatten-golden, trim_prefix-golden}
use go_o11y.Baggage.Carried.{Documented, Bare, get_baggage-with_baggage, with_baggage-accepted}

abbrev golden : String → String
golden j = concat "golden-" j

-- The first value of a key.
abbrev pub first_of : Option (List String) → Option String
first_of none = none
first_of (some []) = none
first_of (some (v ∷ vs)) = some v

abbrev pub single : Option String → Option (List String)
single none = none
single (some v) = some (v ∷ [])

golden_eq : (j k : String) → str_eq (golden j) (golden k) ≡ str_eq j k
golden_eq j k =
    let there : j ≡ k → golden j ≡ golden k = ap golden in
    let back : golden j ≡ golden k → j ≡ k = append_cancel_left "golden-" j k in
    ground (arith, eq_iff j k, eq_iff (golden j) (golden k), there, back)

trimmed_other :
    (k j : String) → str_eq (trim_prefix k "golden-") k ≡ true → str_eq k (golden j) ≡ false
trimmed_other k j e = elim (Bool-cases (str_eq k (golden j))) [
  | inr q ↦ q
  | inl q ↦
      let h : str_eq (trim_prefix (golden j) "golden-") (golden j) ≡ true =
        subst (λ x. str_eq (trim_prefix x "golden-") x ≡ true) ((eq_iff k (golden j)).0 q) e in
      cc (h, trim_prefix-golden j)
]

or_none : (x : Option String) → or_else x none ≡ x
or_none none = refl
or_none (some v) = refl

module _ (o : Outside) where
  put_golden-Distinct :
      (gold : Header) (bag : Dict String) → Distinct bag → Distinct (put_golden o gold bag)
  unfolding put_golden
  put_golden-Distinct [] bag d = d
  put_golden-Distinct ((k, []) ∷ gold) bag d = put_golden-Distinct gold bag d
  put_golden-Distinct ((k, v ∷ vs) ∷ gold) bag d =
      put_golden-Distinct gold (put (golden k) v bag) (put-Distinct (golden k) v bag d)

  get-put_golden_flatten :
      (gold : Header) (bag : Dict String)
      → get "flatten" (put_golden o gold bag) ≡ get "flatten" bag
  unfolding put_golden
  get-put_golden_flatten [] bag = refl
  get-put_golden_flatten ((k, []) ∷ gold) bag = get-put_golden_flatten gold bag
  get-put_golden_flatten ((k, v ∷ vs) ∷ gold) bag =
      get-put_golden_flatten gold (put (golden k) v bag)
      ∙ ground (
        arith,
        get-put (golden k) "flatten" v bag,
        flatten-golden k,
        eq_iff "flatten" (golden k),
        eq_iff (golden k) "flatten",
      )

  get-put_golden :
      (gold : Header) (bag : Dict String) (j : String)
      → Distinct gold
      → get (golden j) (put_golden o gold bag)
        ≡ or_else (first_of (get j gold)) (get (golden j) bag)
  unfolding put_golden get
  get-put_golden [] bag j d = refl
  get-put_golden ((k, []) ∷ gold) bag j d =
      ground (arith, get-put_golden gold bag j d.1, d.0, eq_iff k j)
  get-put_golden ((k, v ∷ vs) ∷ gold) bag j d = ground (
    arith,
    get-put_golden gold (put (golden k) v bag) j d.1,
    get-put (golden k) (golden j) v bag,
    golden_eq k j,
    d.0,
    eq_iff k j,
  )

  -- The keys of golden traces in the baggage are canonical.
  Canonical : Dict String → Type 0
  Canonical d = (j : String) → is_some (get (golden j) d) ≡ true → o.canonical j ≡ j

  -- What the entries of some baggage make of what a header has under a key.
  abbrev added : Option String → Option (List String) → Option (List String)
  added none vs = vs
  added (some v) vs = some (values_of vs ++ v ∷ [])

  header_add-added :
      (key v j : String) (h : Header) (b : Dict String)
      → o.canonical key ≡ key
      → get (golden key) b ≡ none
      → added (get (golden j) b) (get j (header_add o key v h))
        ≡ added (get (golden j) ((golden key, v) ∷ b)) (get j h)
  unfolding header_add get
  header_add-added key v j h b c n =
      let made = get j (header_add o key v h) in
      let put_at : made
          ≡ (if str_eq key j then some (values_of (get key h) ++ v ∷ []) else get j h) =
        subst (λ x. made ≡ (if str_eq x j then some (values_of (get x h) ++ v ∷ []) else get j h)) c
          (get-put (o.canonical key) j (values_of (get (o.canonical key) h) ++ v ∷ []) h) in
      let right = λ (t : Bool). added (if t then some v else get (golden j) b) (get j h) in
      let left = λ (t : Bool). if t then some (values_of (get key h) ++ v ∷ []) else get j h in
      elim (Bool-cases (str_eq key j)) [
        | inl e ↦
            let p = (eq_iff key j).0 e in
            ap (λ x. added x made) (ap (λ x. get (golden x) b) (sym p) ∙ n)
            ∙ put_at
            ∙ ap left e
            ∙ ap (λ x. some (values_of (get x h) ++ v ∷ [])) p
            ∙ sym (ap right (golden_eq key j ∙ e))
        | inr e ↦
            ap (added (get (golden j) b)) (put_at ∙ ap left e)
            ∙ sym (ap right (golden_eq key j ∙ e))
      ]

  get-add_golden :
      (d : Dict String) (h : Header) (j : String)
      → Distinct d
      → Canonical d
      → get j (add_golden o d h) ≡ added (get (golden j) d) (get j h)
  unfolding add_golden get Canonical
  get-add_golden [] h j d c = refl
  get-add_golden ((k, v) ∷ b) h j d c =
      let key = trim_prefix k "golden-" in
      let ih = λ (g : Header). get-add_golden b g j d.1 (λ i z. c i (later i z)) in
      elim (Bool-cases (str_eq key k))
        as (λ _.
          get j (add_golden o b (if str_eq key k then h else header_add o key v h))
          ≡ added (if str_eq k (golden j) then some v else get (golden j) b) (get j h)) [
            | inl e ↦
                ap (λ t. get j (add_golden o b (if t then h else header_add o key v h))) e
                ∙ ih h
                ∙ sym (
                    ap (λ (t : Bool). added (if t then some v else get (golden j) b) (get j h))
                      (trimmed_other k j e))
            | inr e ↦
                let q = trim_prefix-cases k "golden-" e in
                let found : is_some (get (golden key) ((k, v) ∷ b)) ≡ true =
                  ground (arith, (eq_iff k (golden key)).1 q) in
                ap (λ t. get j (add_golden o b (if t then h else header_add o key v h))) e
                ∙ ih (header_add o key v h)
                ∙ header_add-added key v j h b (c key found) (subst (λ x. get x b ≡ none) q d.0)
                ∙ ap (λ x. added (get (golden j) ((x, v) ∷ b)) (get j h)) (sym q)
          ]
    where
      later :
          (i : String)
          → is_some (get (golden i) b) ≡ true
          → is_some (get (golden i) ((k, v) ∷ b)) ≡ true
      later i z = ground (arith, z)

  -- The baggage of a depth alone.
  depth_of : Bool → ℤ → Dict String
  depth_of b flatten = if b then put "flatten" (o.itoa flatten) [] else []

  depth_of-Distinct : (b : Bool) (flatten : ℤ) → Distinct (depth_of b flatten)
  unfolding depth_of put get
  depth_of-Distinct true flatten = (refl, tt)
  depth_of-Distinct false flatten = tt

  get-depth_of :
      (b : Bool) (flatten : ℤ)
      → get "flatten" (depth_of b flatten) ≡ (if b then some (o.itoa flatten) else none)
  unfolding depth_of put get
  get-depth_of true flatten = refl
  get-depth_of false flatten = refl

  get-depth_of_golden :
      (b : Bool) (flatten : ℤ) (j : String) → get (golden j) (depth_of b flatten) ≡ none
  unfolding depth_of put get
  get-depth_of_golden true flatten j = rw (flatten-golden j) refl
  get-depth_of_golden false flatten j = refl

  extras_of-Distinct : (flatten : ℤ) (gold : Header) → Distinct (extras_of o flatten gold)
  unfolding extras_of depth_of
  extras_of-Distinct flatten gold =
      let b = ltb 0 (pos_part flatten) in
      put_golden-Distinct gold (depth_of b flatten) (depth_of-Distinct b flatten)

  get-extras_of_flatten :
      (n : ℕ) (gold : Header)
      → get "flatten" (extras_of o (pos n) gold) ≡ (if ltb 0 n then some (o.itoa (pos n)) else none)
  unfolding extras_of depth_of
  get-extras_of_flatten n gold =
      get-put_golden_flatten gold (depth_of (ltb 0 n) (pos n)) ∙ get-depth_of (ltb 0 n) (pos n)

  get-extras_of_golden :
      (flatten : ℤ) (gold : Header) (j : String)
      → Distinct gold
      → get (golden j) (extras_of o flatten gold) ≡ first_of (get j gold)
  unfolding extras_of depth_of
  get-extras_of_golden flatten gold j d =
      let b = ltb 0 (pos_part flatten) in
      get-put_golden gold (depth_of b flatten) j d
      ∙ ap (or_else (first_of (get j gold))) (get-depth_of_golden b flatten j)
      ∙ or_none (first_of (get j gold))

  -- What comes out of a context whose baggage has what AddExtrasToBaggage puts there.
  pub extras_from_baggage-same :
      (itoa_atoi : (n : ℤ) → o.atoi (o.itoa n) ≡ n) (n : ℕ) (gold : Header) (ctx : BaggageContext)
      → Distinct gold
      → ((j : String) → is_some (get j gold) ≡ true → o.canonical j ≡ j)
      → Distinct (get_baggage o ctx)
      → ((j : String) → get j (get_baggage o ctx) ≡ get j (extras_of o (pos n) gold))
      → let out = extras_from_baggage o ctx in
        (out.0 ≡ pos n) × ((j : String) → get j out.1 ≡ single (first_of (get j gold)))
  unfolding extras_from_baggage Canonical get
  extras_from_baggage-same itoa_atoi n gold ctx d canonical distinct same =
      let b = get_baggage o ctx in
      let golden_same = λ (j : String). same (golden j) ∙ get-extras_of_golden (pos n) gold j d in
      (
        ap depth (same "flatten" ∙ get-extras_of_flatten n gold) ∙ depth_back,
        λ j.
            get-add_golden b [] j distinct
              (λ i z. canonical i (first_some (get i gold) (ap is_some (sym (golden_same i)) ∙ z)))
            ∙ ap (λ x. added x none) (golden_same j)
            ∙ added_none (first_of (get j gold)),
      )
    where
      depth : Option String → ℤ
      depth none = pos 0
      depth (some v) = o.atoi v

      depth_back : depth (if ltb 0 n then some (o.itoa (pos n)) else none) ≡ pos n
      depth_back = elim (Bool-cases (ltb 0 n)) [
        | inl e ↦ rw e (itoa_atoi (pos n))
        | inr e ↦ rw e (ap pos (ground (arith, e)))
      ]

      first_some : (x : Option (List String)) → is_some (first_of x) ≡ true → is_some x ≡ true
      first_some none z = z
      first_some (some l) z = refl

      added_none : (x : Option String) → added x none ≡ single x
      added_none none = refl
      added_none (some v) = refl

  module _ (doc : Documented o) (ctx : BaggageContext) (bare : Bare o doc ctx) where
    carried :
        (bag : Dict String)
        → Distinct bag
        → let d = get_baggage o (unless_empty o bag ctx (with_baggage o bag ctx)) in
          Distinct d × ((j : String) → get j d ≡ get j bag)
    unfolding unless_empty
    carried [] h =
        let e : get_baggage o ctx ≡ [] = nothing in (subst Distinct (sym e) tt, λ j. ap (get j) e)
      where
        nothing : get_baggage o ctx ≡ []
        nothing =
            unfold get_baggage in
            ap
              (λ x. elim x as (λ _. Dict String) [
                | none ↦ ctx.otel
                | some b ↦ put_all (λ k. k) b ctx.otel
              ])
              bare.1
            ∙ bare.0
    carried (kv ∷ bag) h = get_baggage-with_baggage o doc (kv ∷ bag) ctx h bare

    remote_baggage : (other : BaggageContext) → other.own ≡ none → get_baggage o other ≡ other.otel
    unfolding get_baggage
    remote_baggage other e =
        ap
          (λ x. elim x as (λ _. Dict String) [
            | none ↦ other.otel
            | some b ↦ put_all (λ k. k) b other.otel
          ])
          e

    accepted :
        (bag : Dict String)
        → Distinct bag
        → (unless_empty o bag ctx (with_baggage o bag ctx)).baggage_errors ≡ []
        → let d = (unless_empty o bag ctx (with_baggage o bag ctx)).otel in
          Distinct d × ((j : String) → get j d ≡ get j bag)
    unfolding unless_empty
    accepted [] h z = (subst Distinct (sym bare.0) tt, λ j. ap (get j) bare.0)
    accepted (kv ∷ bag) h z = with_baggage-accepted o doc (kv ∷ bag) ctx h bare z

    -- The depth and the golden trace that are put into a context without baggage are got back from
    -- it: the depth, and of each key of the header, which are canonical and not there twice, its first
    -- value. A key without values, and any other key, is not there.
    pub extras_from_baggage-add_extras_to_baggage :
        (n : ℕ) (gold : Header)
        → Distinct gold
        → ((j : String) → is_some (get j gold) ≡ true → o.canonical j ≡ j)
        → let out = extras_from_baggage o (add_extras_to_baggage o (pos n) gold ctx) in
          (out.0 ≡ pos n) × ((j : String) → get j out.1 ≡ single (first_of (get j gold)))
    unfolding add_extras_to_baggage
    extras_from_baggage-add_extras_to_baggage n gold d canonical =
        let bag = extras_of o (pos n) gold in
        let (distinct, same) = carried bag (extras_of-Distinct (pos n) gold) in
        extras_from_baggage-same doc.atoi_itoa n gold (add_extras_to_baggage o (pos n) gold ctx) d
          canonical distinct same

    pub add_extras_to_baggage-Distinct :
        (n : ℕ) (gold : Header)
        → (add_extras_to_baggage o (pos n) gold ctx).baggage_errors ≡ []
        → Distinct (add_extras_to_baggage o (pos n) gold ctx).otel
    unfolding add_extras_to_baggage
    add_extras_to_baggage-Distinct n gold h =
        (accepted (extras_of o (pos n) gold) (extras_of-Distinct (pos n) gold) h).0

    -- The same for a context that has got OpenTelemetry's baggage of that one and nothing else, if no
    -- error was recorded on it.
    pub extras_from_baggage-remote :
        (n : ℕ) (gold : Header) (other : BaggageContext)
        → Distinct gold
        → ((j : String) → is_some (get j gold) ≡ true → o.canonical j ≡ j)
        → (add_extras_to_baggage o (pos n) gold ctx).baggage_errors ≡ []
        → other.own ≡ none
        → Distinct other.otel
        → ((j : String) → get j other.otel ≡ get j (add_extras_to_baggage o (pos n) gold ctx).otel)
        → let out = extras_from_baggage o other in
          (out.0 ≡ pos n) × ((j : String) → get j out.1 ≡ single (first_of (get j gold)))
    unfolding add_extras_to_baggage
    extras_from_baggage-remote n gold other d canonical h own once carries =
        let bag = extras_of o (pos n) gold in
        let e : get_baggage o other ≡ other.otel = remote_baggage other own in
        let (distinct, same) = accepted bag (extras_of-Distinct (pos n) gold) h in
        extras_from_baggage-same doc.atoi_itoa n gold other d canonical
          (subst Distinct (sym e) once) (λ j. ap (get j) e ∙ carries j ∙ same j)
