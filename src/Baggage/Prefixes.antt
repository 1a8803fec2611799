-- ===== src/Baggage/Prefixes.antt =====
-- Prefixes of texts, under the name of the `strings` package, and the keys of extras.
use Prim.Native.String.append
use Prim.Native.String.{len, slice, ◌∷◌ as prepend, ◌++◌ as concat}
use go_o11y.Prelude.{
  ◌≡◌, sym, ap, ◌∙◌, arith, String, false, first_code, str_eq, eq_iff, Bool-cases, inl, inr,
  if◌then◌else◌, append_cancel_right,
}
use package.text.Mathlib.Text.{starts_with}
use package.text.Mathlib.TextPositions.{starts_with-append, slice-append_right, len-append}
use package.text.Mathlib.TextEquality.{starts_with_iff}

-- TrimPrefix
unfoldable pub trim_prefix : String → String → String
trim_prefix s p = if starts_with s p then slice s (len p) (len s) else s

trim_prefix-append : (p s : String) → trim_prefix (concat p s) p ≡ s
unfolding trim_prefix
trim_prefix-append p s =
    rw (starts_with-append p s)
      (ap (λ n. slice (concat p s) (len p) n) (len-append p s) ∙ slice-append_right p s)

-- What is trimmed stood after the prefix.
pub trim_prefix-cases :
    (s p : String) → str_eq (trim_prefix s p) s ≡ false → s ≡ concat p (trim_prefix s p)
unfolding trim_prefix
trim_prefix-cases s p h = elim (Bool-cases (starts_with s p)) [
  | inl e ↦
      let (t, q) = (starts_with_iff s p).0 e in
      sym q ∙ ap (concat p) (sym (trim_prefix-append p t) ∙ ap (λ x. trim_prefix x p) q)
  | inr e ↦ ground (arith, e, h, eq_iff s s)
]

golden_cons : (s : String) → concat "golden-" s ≡ prepend "g" (concat "olden-" s)
golden_cons s = append.cons "g" "olden-" s

-- The key of the depth is no key of a golden trace.
pub flatten-golden : (s : String) → str_eq "flatten" (concat "golden-" s) ≡ false
flatten-golden s = elim (Bool-cases (str_eq "flatten" (concat "golden-" s))) [
  | inr e ↦ e
  | inl e ↦
      let q : "flatten" ≡ concat "golden-" s = (eq_iff "flatten" (concat "golden-" s)).0 e in
      let n : first_code "flatten" ≡ 103 = ap first_code (q ∙ golden_cons s) in
      absurd (ground (arith, n))
]

-- A key of a golden trace is trimmed.
pub trim_prefix-golden :
    (s : String) → str_eq (trim_prefix (concat "golden-" s) "golden-") (concat "golden-" s) ≡ false
trim_prefix-golden s = elim (Bool-cases (str_eq s (concat "golden-" s))) [
  | inr e ↦ rw (trim_prefix-append "golden-" s) e
  | inl e ↦ absurd (
      no_prefix
        (append_cancel_right "" "golden-" s (append.nil s ∙ (eq_iff s (concat "golden-" s)).0 e)))
]
  where
    no_prefix : ◌≡◌ {A = String} "" "golden-" → ⊥
    no_prefix p = cc p
