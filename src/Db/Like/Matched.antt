-- ===== src/Db/Like/Matched.antt =====
-- What a pattern with an escaped text in it matches (EscapeLike of db/like.go).
use Prim.Native.Char.{Char, code}
use Prim.Native.String.append
use Prim.Native.String.{[] as empty, ◌∷◌ as prepend, ◌++◌ as concat}
use mathlib.Core.Path.{subst}
use text.Mathlib.TextEquality.{Char-path}
use go_o11y.Prelude.{
  ◌≡◌, refl, sym, ap, ◌∙◌, ◌↔◌, arith, String, Bool, true, false, not, ◌&&◌, ◌||◌, Option, none,
  some, List, [], ◌∷◌, ◌==◌, Bool-cases, inl, inr, if◌then◌else◌,
}
use go_o11y.Db.Like.{escape_like}

-- A pattern of LIKE, as SQL has it: `_` is any one character, `%` any number of them, and a
-- backslash takes what follows it as it is. At the end of a pattern it is an error.
pub data Piece : Type 0 where
  literal : Char → Piece
  any_one : Piece
  any_run : Piece

abbrev cons_piece : Piece → Option (List Piece) → Option (List Piece)
cons_piece p none = none
cons_piece p (some ps) = some (p ∷ ps)

-- The first argument says whether a backslash stands before the pattern.
unfoldable pub pieces : Bool → String → Option (List Piece)
pieces true empty = none
pieces false empty = some []
pieces true (prepend c s) = cons_piece (literal c) (pieces false s)
pieces false (prepend c s) =
    let rest = pieces false s in
    let escaped = pieces true s in
    if code c == 92
    then escaped
    else if code c == 95
    then cons_piece any_one rest
    else if code c == 37
    then cons_piece any_run rest
    else cons_piece (literal c) rest

some_suffix : (String → Bool) → String → Bool
some_suffix f empty = f empty
some_suffix f (prepend c s) = f (prepend c s) || some_suffix f s

unfoldable pub matches : List Piece → String → Bool
unfolding some_suffix
matches [] empty = true
matches [] (prepend d t) = false
matches (literal c ∷ ps) empty = false
matches (literal c ∷ ps) (prepend d t) = code c == code d && matches ps t
matches (any_one ∷ ps) empty = false
matches (any_one ∷ ps) (prepend d t) = matches ps t
matches (any_run ∷ ps) t = some_suffix (matches ps) t

matches_some : Option (List Piece) → String → Bool
matches_some none t = false
matches_some (some ps) t = matches ps t

-- Whether a text is LIKE a pattern.
unfoldable pub like : String → String → Bool
unfolding matches_some
like p t = matches_some (pieces false p) t

abbrev pub no_backslash : String → Bool
no_backslash empty = true
no_backslash (prepend c s) = not (code c == 92) && no_backslash s

abbrev literally : String → Option (List Piece) → Option (List Piece)
literally empty ps = ps
literally (prepend c s) ps = cons_piece (literal c) (literally s ps)

escaped_piece :
    (c : Char) (r p : String)
    → pieces false (concat (prepend "\\" (prepend c r)) p)
      ≡ cons_piece (literal c) (pieces false (concat r p))
unfolding pieces
escaped_piece c r p =
    ap (pieces false) (append.cons "\\" (prepend c r) p ∙ ap (prepend "\\") (append.cons c r p))

plain_piece :
    (c : Char) (r p : String)
    → (code c == 92) ≡ false
    → (code c == 95) ≡ false
    → (code c == 37) ≡ false
    → pieces false (concat (prepend c r) p) ≡ cons_piece (literal c) (pieces false (concat r p))
unfolding pieces
plain_piece c r p h i j = ap (pieces false) (append.cons c r p) ∙ ground (arith, h, i, j)

same_char : (c d : Char) → (code c == code d) ≡ true → c ≡ d
same_char c d h = Char-path c d (ground (arith, h))

pieces-escape_like :
    (s p : String)
    → no_backslash s ≡ true
    → pieces false (concat (escape_like s) p) ≡ literally s (pieces false p)
unfolding pieces escape_like
pieces-escape_like empty p h = ap (pieces false) (append.nil p)
pieces-escape_like (prepend c s) p h =
    let r = escape_like s in
    let ih = ap (cons_piece (literal c)) (pieces-escape_like s p (ground (arith, h))) in
    let choice : Bool → Bool → Option (List Piece) = λ b d. pieces false (
      concat
        (if b
          then prepend "\\" (prepend "_" r)
          else if d
          then prepend "\\" (prepend "%" r)
          else prepend c r)
        p) in
    let written = λ (d : Char). cons_piece (literal d) (pieces false (concat r p)) in
    elim (Bool-cases (code c == 95))
      as (λ _.
        choice (code c == 95) (code c == 37)
        ≡ cons_piece (literal c) (literally s (pieces false p))) [
          | inl e ↦
              ap (λ b. choice b (code c == 37)) e
              ∙ escaped_piece "_" r p
              ∙ ap written (sym (same_char c "_" e))
              ∙ ih
          | inr e ↦ elim (Bool-cases (code c == 37)) [
            | inl f ↦
                ap (λ b. choice b (code c == 37)) e
                ∙ ap (choice false) f
                ∙ escaped_piece "%" r p
                ∙ ap written (sym (same_char c "%" f))
                ∙ ih
            | inr f ↦
                ap (λ b. choice b (code c == 37)) e
                ∙ ap (choice false) f
                ∙ plain_piece c r p (ground (arith, h)) e f
                ∙ ih
          ]
        ]

matches_literal :
    (c : Char) (q : Option (List Piece)) (t : String)
    → matches_some (cons_piece (literal c) q) t ≡ true
      ↔ ((u : String) × (t ≡ prepend c u) × (matches_some q u ≡ true))
unfolding matches matches_some
matches_literal c none t = (λ h. absurd (cc h), λ (u, e, h). absurd (cc h))
matches_literal c (some ps) empty = (λ h. absurd (cc h), λ (u, e, h). absurd (cc e))
matches_literal c (some ps) (prepend d t) = (
  λ h. (t, ap (λ x. prepend x t) (sym (same_char c d (ground (arith, h)))), ground (arith, h)),
  λ (u, e, h).
      subst (λ x. matches_some (some (literal c ∷ ps)) x ≡ true) (sym e) (ground (arith, h)),
)

matches-literally :
    (s t : String) (q : Option (List Piece))
    → matches_some (literally s q) t ≡ true
      ↔ ((u : String) × (t ≡ concat s u) × (matches_some q u ≡ true))
matches-literally empty t q = (
  λ h. (t, sym (append.nil t), h),
  λ (u, e, h). subst (λ x. matches_some q x ≡ true) (sym (e ∙ append.nil u)) h,
)
matches-literally (prepend c s) t q =
    let here = matches_literal c (literally s q) t in
    let there = λ (v : String). matches-literally s v q in
    (
      λ h.
          let (v, e, k) = here.0 h in
          let (u, f, l) = (there v).0 k in (u, e ∙ ap (prepend c) f ∙ sym (append.cons c s u), l),
      λ (u, e, h). here.1 (concat s u, e ∙ append.cons c s u, (there (concat s u)).1 (u, refl, h)),
    )

-- An escaped text without backslashes that begins a pattern matches itself and nothing else: the
-- texts that are like the pattern are those that begin with it, and go on as the rest of the pattern
-- has it.
pub like-escape_like :
    (s p t : String)
    → no_backslash s ≡ true
    → like (concat (escape_like s) p) t ≡ true
      ↔ ((u : String) × (t ≡ concat s u) × (like p u ≡ true))
unfolding like
like-escape_like s p t h =
    subst (λ x. matches_some x t ≡ true ↔ ((u : String) × (t ≡ concat s u) × (like p u ≡ true)))
      (sym (pieces-escape_like s p h)) (matches-literally s t (pieces false p))
