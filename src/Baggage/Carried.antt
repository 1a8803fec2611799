-- ===== src/Baggage/Carried.antt =====
-- What a context that baggage was put into carries (WithBaggage and GetBaggage of o11y/o11y.go).
use mathlib.Core.Path.{subst}
use go_o11y.Prelude.{
  ◌≡◌, ◌≢◌, List, eq_iff, refl, sym, ap, ◌∙◌, arith, String, false, Option, none, some, [], ◌∷◌,
  ◌++◌, str_eq, if◌then◌else◌, Dict, get, Distinct, put_all, put_all-Distinct, get-put_all, or_else,
  ◌⊎◌, Bool-cases, inl, inr, if_both,
}
use go_o11y.Prelude.Int.{ℤ}
use go_o11y.Errors.{Err}
use go_o11y.Baggage.{
  Outside, BaggageContext, set_one, with_error, set_members, with_baggage, get_baggage,
  add_to_trace, underscored, is_internal_baggage,
}

-- What is relied on: SetMember adds or replaces the member, in baggage that has no key twice, or
-- fails and changes nothing; and Atoi reads what Itoa wrote.
pub record Documented (o : Outside) : Type 0 where
  pub set_member_get :
      (k v j : String) (bg : Dict String)
      → get j (o.set_member k v bg).1 ≡ get j bg
        ⊎ (get j (o.set_member k v bg).1 ≡ (if str_eq k j then some v else get j bg))
  pub set_member_done :
      (k v j : String) (bg : Dict String)
      → (o.set_member k v bg).0 ≡ none
      → get j (o.set_member k v bg).1 ≡ (if str_eq k j then some v else get j bg)
  pub set_member_distinct :
      (k v : String) (bg : Dict String) → Distinct bg → Distinct (o.set_member k v bg).1
  pub atoi_itoa : (n : ℤ) → o.atoi (o.itoa n) ≡ n

module _ (o : Outside) (doc : Documented o) where
  with_error-otel : (e : Option Err) (ctx : BaggageContext) → (with_error o e ctx).otel ≡ ctx.otel
  unfolding with_error
  with_error-otel none ctx = refl
  with_error-otel (some e) ctx = refl

  set_one-get :
      (k v j : String) (ctx : BaggageContext)
      → str_eq k j ≡ false
      → get j ctx.otel ≡ none
      → get j (set_one o k v ctx).otel ≡ none
  unfolding set_one with_error
  set_one-get k v j ctx h n = go (o.new_member k v)
    where
      set : Option Err × Dict String
      set = o.set_member k v ctx.otel

      replaced : get j (o.set_member k v ctx.otel).1 ≡ none
      replaced = elim (doc.set_member_get k v j ctx.otel) [
        | inl e ↦ e ∙ n
        | inr e ↦ ground (arith, e, h, n)
      ]

      go :
          (m : Option Err)
          → get j
              (elim m as (λ _. BaggageContext) [
                | some e ↦ with_error o (some e) ctx
                | none ↦ with_error o set.0 (record ctx { otel = set.1 })
              ]).otel
            ≡ none
      go (some e) = n
      go none = ap (get j) (with_error-otel set.0 (record ctx { otel = set.1 })) ∙ replaced

  set_members-get :
      (b : Dict String) (j : String) (ctx : BaggageContext)
      → get j b ≡ none
      → get j ctx.otel ≡ none
      → get j (set_members o b ctx).otel ≡ none
  unfolding set_members get
  set_members-get [] j ctx h n = n
  set_members-get ((k, v) ∷ b) j ctx h n = elim (Bool-cases (str_eq k j)) [
    | inl e ↦ ground (arith, e, h)
    | inr e ↦
        set_members-get b j (set_one o k v ctx) (ground (arith, e, h)) (set_one-get k v j ctx e n)
  ]

  set_one-Distinct :
      (k v : String) (ctx : BaggageContext) → Distinct ctx.otel → Distinct (set_one o k v ctx).otel
  unfolding set_one with_error
  set_one-Distinct k v ctx d = go (o.new_member k v)
    where
      set : Option Err × Dict String
      set = o.set_member k v ctx.otel

      go :
          (m : Option Err)
          → Distinct
              (elim m as (λ _. BaggageContext) [
                | some e ↦ with_error o (some e) ctx
                | none ↦ with_error o set.0 (record ctx { otel = set.1 })
              ]).otel
      go (some e) = d
      go none =
          subst Distinct (sym (with_error-otel set.0 (record ctx { otel = set.1 })))
            (doc.set_member_distinct k v ctx.otel d)

  set_members-Distinct :
      (b : Dict String) (ctx : BaggageContext)
      → Distinct ctx.otel
      → Distinct (set_members o b ctx).otel
  unfolding set_members
  set_members-Distinct [] ctx d = d
  set_members-Distinct ((k, v) ∷ b) ctx d =
      set_members-Distinct b (set_one o k v ctx) (set_one-Distinct k v ctx d)

add_to_trace-otel : (b : Dict String) (ctx : BaggageContext) → (add_to_trace b ctx).otel ≡ ctx.otel
unfolding add_to_trace
add_to_trace-otel [] ctx = refl
add_to_trace-otel ((k, v) ∷ b) ctx =
    let added : BaggageContext = record ctx {
      trace_fields = ctx.trace_fields ++ (underscored k, v) ∷ [];
    } in
    let c = is_internal_baggage k in
    add_to_trace-otel b (if c then ctx else added)
    ∙ if_both (λ (x : BaggageContext). x.otel ≡ ctx.otel) c refl refl

add_to_trace-errors :
    (b : Dict String) (ctx : BaggageContext)
    → (add_to_trace b ctx).baggage_errors ≡ ctx.baggage_errors
unfolding add_to_trace
add_to_trace-errors [] ctx = refl
add_to_trace-errors ((k, v) ∷ b) ctx =
    let added : BaggageContext = record ctx {
      trace_fields = ctx.trace_fields ++ (underscored k, v) ∷ [];
    } in
    let c = is_internal_baggage k in
    add_to_trace-errors b (if c then ctx else added)
    ∙ if_both (λ (x : BaggageContext). x.baggage_errors ≡ ctx.baggage_errors) c refl refl

append_ne_nil : (l : List Err) (e : Err) → l ++ e ∷ [] ≢ []
append_ne_nil [] e h = cc h
append_ne_nil (x ∷ l) e h = cc h

module _ (o : Outside) (doc : Documented o) where
  -- A context without baggage.
  abbrev pub Bare : BaggageContext → Type 0
  Bare ctx = (ctx.otel ≡ []) × (ctx.own ≡ none)

  -- What is put into it can be got, and nothing else, and no key is there twice.
  pub get_baggage-with_baggage :
      (b : Dict String) (ctx : BaggageContext)
      → Distinct b
      → Bare ctx
      → let d = get_baggage o (with_baggage o b ctx) in
        Distinct d × ((j : String) → get j d ≡ get j b)
  unfolding get_baggage with_baggage
  get_baggage-with_baggage b ctx d (e, _) =
      let other = set_members o b ctx in
      let same = add_to_trace-otel b other in
      let n : (j : String) → get j ctx.otel ≡ none = λ j. unfold get in ap (get j) e in
      (
        put_all-Distinct (λ k. k) b (add_to_trace b other).otel
            (subst Distinct (sym same)
              (set_members-Distinct o doc b ctx (subst Distinct (sym e) tt))),
        λ j.
            got j (get-put_all (λ k. k) (λ x y p. p) j b (add_to_trace b other).otel d)
              (λ z. ap (get j) same ∙ set_members-get o doc b j ctx z (n j)),
      )
    where
      got :
          (j : String)
          → get j (put_all (λ k. k) b (add_to_trace b (set_members o b ctx)).otel)
            ≡ or_else (get j b) (get j (add_to_trace b (set_members o b ctx)).otel)
          → (get j b ≡ none → get j (add_to_trace b (set_members o b ctx)).otel ≡ none)
          → get j (put_all (λ k. k) b (add_to_trace b (set_members o b ctx)).otel) ≡ get j b
      got j p q = ground (arith, p, q)

  -- A member that is set without an error is there.
  set_one-accepted :
      (k v j : String) (ctx : BaggageContext)
      → (set_one o k v ctx).baggage_errors ≡ []
      → (ctx.baggage_errors ≡ [])
        × (get j (set_one o k v ctx).otel ≡ (if str_eq k j then some v else get j ctx.otel))
  unfolding set_one with_error
  set_one-accepted k v j ctx h = go (o.new_member k v) h
    where
      set : Option Err × Dict String
      set = o.set_member k v ctx.otel

      made : Option Err → BaggageContext
      made m = elim m [
        | some e ↦ with_error o (some e) ctx
        | none ↦ with_error o set.0 (record ctx { otel = set.1 })
      ]

      added :
          (e : Option Err)
          → set.0 ≡ e
          → (with_error o e (record ctx { otel = set.1 })).baggage_errors ≡ []
          → (ctx.baggage_errors ≡ [])
            × (get j (with_error o e (record ctx { otel = set.1 })).otel
                ≡ (if str_eq k j then some v else get j ctx.otel))
      added none q z = (z, doc.set_member_done k v j ctx.otel q)
      added (some e) q z = absurd (append_ne_nil ctx.baggage_errors e z)

      go :
          (m : Option Err)
          → (made m).baggage_errors ≡ []
          → (ctx.baggage_errors ≡ [])
            × (get j (made m).otel ≡ (if str_eq k j then some v else get j ctx.otel))
      go (some e) z = absurd (append_ne_nil ctx.baggage_errors e z)
      go none z = added set.0 refl z

  set_members-accepted :
      (b : Dict String) (ctx : BaggageContext)
      → (set_members o b ctx).baggage_errors ≡ []
      → (ctx.baggage_errors ≡ [])
        × (Distinct b
            → (j : String) → get j (set_members o b ctx).otel ≡ or_else (get j b) (get j ctx.otel))
  unfolding set_members get
  set_members-accepted [] ctx h = (h, λ d j. refl)
  set_members-accepted ((k, v) ∷ b) ctx h =
      let (e, found) = set_members-accepted b (set_one o k v ctx) h in
      (
        (set_one-accepted k v k ctx e).0,
        λ d j. ground (arith, found d.1 j, (set_one-accepted k v j ctx e).1, d.0, eq_iff k j),
      )

  -- What OpenTelemetry's baggage has of what is put into a context without baggage, if no error was
  -- recorded: all of it, and nothing else.
  pub with_baggage-accepted :
      (b : Dict String) (ctx : BaggageContext)
      → Distinct b
      → Bare ctx
      → (with_baggage o b ctx).baggage_errors ≡ []
      → let d = (with_baggage o b ctx).otel in Distinct d × ((j : String) → get j d ≡ get j b)
  unfolding with_baggage
  with_baggage-accepted b ctx d (e, _) h =
      let other = set_members o b ctx in
      let same = add_to_trace-otel b other in
      let (_, found) = set_members-accepted b ctx (sym (add_to_trace-errors b other) ∙ h) in
      (
        subst Distinct (sym same) (set_members-Distinct o doc b ctx (subst Distinct (sym e) tt)),
        λ j. ap (get j) same ∙ found d j ∙ or_nothing (get j b) (get j ctx.otel) (nothing j),
      )
    where
      nothing : (j : String) → get j ctx.otel ≡ none
      nothing j = unfold get in ap (get j) e

      or_nothing : (x y : Option String) → y ≡ none → or_else x y ≡ x
      or_nothing none y q = q
      or_nothing (some v) y q = refl
