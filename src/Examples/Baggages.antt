-- ===== src/Examples/Baggages.antt =====
-- A golden trace of one service and a depth of 2 go through the baggage.
use Prim.Native.String.append
use Prim.Native.Char.{Char}
use package.text.Mathlib.TextPositions.{len-append}
use Prim.Native.String.{len, ◌∷◌ as prepend, ◌++◌ as concat}
use go_o11y.Prelude.{
  ◌≡◌, refl, ap, ◌∙◌, arith, ℕ, String, none, [], ◌∷◌, ◌==◌, inr, first_code, if◌then◌else◌, get,
  put, get-put, Distinct, put-Distinct, zero, suc,
}
use go_o11y.Prelude.Int.{ℤ, pos, negsuc}
use go_o11y.Baggage.{Outside, BaggageContext, Header, extras_from_baggage, add_extras_to_baggage}
use go_o11y.Baggage.Carried.{Documented}
use go_o11y.Baggage.RoundTrip.{first_of, single, extras_from_baggage-add_extras_to_baggage}

-- Strokes are counted, with a sign before them.
unfoldable strokes : ℕ → String
strokes zero = ""
strokes (suc n) = concat "x" (strokes n)

unfoldable pub itoa : ℤ → String
unfolding strokes
itoa (pos n) = strokes n
itoa (negsuc n) = concat "-" (strokes n)

abbrev pub less_one : ℕ → ℕ
less_one zero = 0
less_one (suc n) = n

unfoldable pub atoi : String → ℤ
atoi s = if first_code s == 45 then negsuc (less_one (len s)) else pos (len s)

len-strokes : (n : ℕ) → len (strokes n) ≡ n
unfolding strokes
len-strokes zero = refl
len-strokes (suc n) = ground (arith, len-append "x" (strokes n), len-strokes n)

code_of : (c : Char) (s : String) → first_code (concat (prepend c "") s) ≡ first_code (prepend c "")
code_of c s = ap first_code (append.cons c "" s)

len_signed : (s : String) → len (concat "-" s) ≡ suc (len s)
len_signed s = ground (arith, len-append "-" s)

atoi-itoa : (n : ℤ) → atoi (itoa n) ≡ n
unfolding atoi itoa strokes
atoi-itoa (pos zero) = refl
atoi-itoa (pos (suc n)) =
    ap
      (λ c.
        if c == 45 then negsuc (less_one (len (strokes (suc n)))) else pos (len (strokes (suc n))))
      (code_of "x" (strokes n))
    ∙ ap pos (len-strokes (suc n))
atoi-itoa (negsuc n) =
    ap
      (λ c.
        if c == 45 then negsuc (less_one (len (itoa (negsuc n)))) else pos (len (itoa (negsuc n))))
      (code_of "-" (strokes n))
    ∙ ap (λ m. negsuc (less_one m)) (len_signed (strokes n))
    ∙ ap negsuc (len-strokes n)

abbrev pub outside : Outside
outside = record {
  new_member = λ k v. none;
  set_member = λ k v bg. (none, put k v bg);
  itoa = itoa;
  atoi = atoi;
  canonical = λ k. k;
}

pub documented : Documented outside
documented = record {
  set_member_get = λ k v j bg. inr (get-put k j v bg);
  set_member_done = λ k v j bg h. get-put k j v bg;
  set_member_distinct = λ k v bg d. put-Distinct k v bg d;
  atoi_itoa = atoi-itoa;
}

abbrev pub ctx : BaggageContext
ctx = record { otel = []; own = none; trace_fields = []; baggage_errors = [] }

abbrev gold : Header
gold = ("Trace", "a" ∷ "b" ∷ []) ∷ ("Empty", []) ∷ []

gold-Distinct : Distinct gold
unfolding get
gold-Distinct = (refl, (refl, tt))

extras_from_baggage-add_extras_to_baggage_example :
    let out = extras_from_baggage outside (add_extras_to_baggage outside (pos 2) gold ctx) in
    (out.0 ≡ pos 2) × ((j : String) → get j out.1 ≡ single (first_of (get j gold)))
extras_from_baggage-add_extras_to_baggage_example =
    extras_from_baggage-add_extras_to_baggage outside documented ctx (refl, refl) 2 gold
      gold-Distinct (λ j h. refl)
