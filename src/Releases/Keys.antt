-- ===== src/Releases/Keys.antt =====
-- The keys of the cache of releases (makeKey of releases/release/list.go).
use Prim.Native.Char.{Char, code}
use Prim.Native.String.append
use Prim.Native.String.{[] as empty, ◌∷◌ as prepend, ◌++◌ as concat}
use go_o11y.Prelude.{
  ◌≡◌, refl, sym, ap, ◌∙◌, arith, String, Bool, false, ◌||◌, ◌==◌, first_code, append_cancel_left,
}
use go_o11y.Releases.{Requirements, make_key}

-- Whether the separator of a key occurs.
unfoldable pub has_bar : String → Bool
has_bar empty = false
has_bar (prepend c s) = code c == 124 || has_bar s

bar : String → String
bar s = concat "|" s

bar_cons : (x : String) → bar x ≡ prepend "|" (concat empty x)
unfolding bar
bar_cons x = append.cons "|" empty x

prepend_inj : {c d : Char} {s t : String} → prepend c s ≡ prepend d t → (c ≡ d) × (s ≡ t)
prepend_inj e = (cc, cc)

-- A text that starts with a separator is no text without it before another.
bar-prepend :
    {A : Type 0} (c : Char) (b x y : String)
    → has_bar (prepend c b) ≡ false
    → bar x ≡ concat (prepend c b) (bar y)
    → A
unfolding has_bar
bar-prepend c b x y k e =
    let h : first_code (bar x) ≡ code c = ap first_code (e ∙ append.cons c b (bar y)) in
    let g : first_code (bar x) ≡ 124 = ap first_code (bar_cons x) in
    absurd (ground (arith, h, g, k))

-- A text without the separator ends where the first separator is.
until_bar :
    (a b x y : String)
    → has_bar a ≡ false
    → has_bar b ≡ false
    → concat a (bar x) ≡ concat b (bar y)
    → (a ≡ b) × (x ≡ y)
unfolding bar has_bar
until_bar empty empty x y h k e =
    (refl, append_cancel_left "|" x y (sym (append.nil (bar x)) ∙ e ∙ append.nil (bar y)))
until_bar empty (prepend c b) x y h k e = bar-prepend c b x y k (sym (append.nil (bar x)) ∙ e)
until_bar (prepend c a) empty x y h k e = bar-prepend c a y x h (sym (append.nil (bar y)) ∙ sym e)
until_bar (prepend c a) (prepend d b) x y h k e =
    let (p, q) = prepend_inj (sym (append.cons c a (bar x)) ∙ e ∙ append.cons d b (bar y)) in
    let (r, s) = until_bar a b x y (ground (arith, h)) (ground (arith, k)) q in (cc (p, r), s)

-- A key determines the requirements, if neither the version nor the platform has the separator.
pub make_key_inj :
    (r s : Requirements)
    → has_bar r.version ≡ false
    → has_bar s.version ≡ false
    → has_bar r.platform ≡ false
    → has_bar s.platform ≡ false
    → make_key r ≡ make_key s
    → r ≡ s
unfolding make_key bar
make_key_inj r s h k i j e =
    let (v, p) = until_bar r.version s.version _ _ h k e in
    let (q, a) = until_bar r.platform s.platform _ _ i j p in
    λ n. record { version = v n; platform = q n; arch = a n }
