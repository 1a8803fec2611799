-- ===== src/Releaser/Lines.antt =====
-- How a line of checksums.txt (releases/releaser/releaser.go) is taken apart by decodeRelease
-- (releases/release/list_s3.go).
use Prim.Native.Char.{code}
use Prim.Native.String.append
use Prim.Native.String.{[] as empty, ◌∷◌ as prepend, ◌++◌ as concat}
use go_o11y.Prelude.{
  ◌≡◌, refl, ap, ◌∙◌, arith, ℕ, String, Bool, false, ◌||◌, Option, none, some, List, [], ◌∷◌, ◌==◌,
  if◌then◌else◌,
}
use go_o11y.Releases.{Requirements, Release}
use go_o11y.Releases.S3.{
  split_spaces, add_to_first, release_of, filename_of, drop_first, first_part,
}

-- Whether a character occurs.
abbrev pub has_code : ℕ → String → Bool
has_code n empty = false
has_code n (prepend c s) = code c == n || has_code n s

pub has_code-append :
    (n : ℕ) (s t : String) → has_code n (concat s t) ≡ (has_code n s || has_code n t)
has_code-append n empty t = ap (has_code n) (append.nil t)
has_code-append n (prepend c s) t =
    ap (has_code n) (append.cons c s t) ∙ ground (arith, has_code-append n s t)

split_spaces-word : (s : String) → has_code 32 s ≡ false → split_spaces s ≡ s ∷ []
unfolding split_spaces
split_spaces-word empty h = refl
split_spaces-word (prepend c s) h =
    let part = λ (b : Bool) (rest : List String).
      if b then "" ∷ rest else add_to_first (prepend c empty) rest in
    let other : (code c == 32) ≡ false = ground (arith, h) in
    ap (part (code c == 32)) (split_spaces-word s (ground (arith, h)))
    ∙ ap (λ b. part b (s ∷ [])) other
    ∙ ap (λ x. x ∷ []) (append.cons c empty s ∙ ap (prepend c) (append.nil s))

split_spaces-append :
    (s t : String)
    → has_code 32 s ≡ false
    → split_spaces (concat s (prepend " " t)) ≡ s ∷ split_spaces t
unfolding split_spaces
split_spaces-append empty t h = ap split_spaces (append.nil (prepend " " t))
split_spaces-append (prepend c s) t h =
    let part = λ (b : Bool) (rest : List String).
      if b then "" ∷ rest else add_to_first (prepend c empty) rest in
    let other : (code c == 32) ≡ false = ground (arith, h) in
    ap split_spaces (append.cons c s (prepend " " t))
    ∙ ap (part (code c == 32)) (split_spaces-append s t (ground (arith, h)))
    ∙ ap (λ b. part b (s ∷ split_spaces t)) other
    ∙ ap (λ x. x ∷ split_spaces t) (append.cons c empty s ∙ ap (prepend c) (append.nil s))

starred : (name : String) → concat " *" name ≡ prepend " " (prepend "*" name)
starred name =
    append.cons " " "*" name
    ∙ ap (prepend " ") (append.cons "*" empty name ∙ ap (prepend "*") (append.nil name))

-- The release of a line, if neither the sum nor the name has a space.
pub release_of-line :
    (base_url : String) (rq : Requirements) (sum name : String)
    → has_code 32 sum ≡ false
    → has_code 32 name ≡ false
    → release_of base_url rq (concat sum (concat " *" name))
      ≡ some (record {
        url = concat base_url (concat "/" (concat rq.version (concat "/" name)));
        checksum = sum;
        version = rq.version;
      })
unfolding release_of filename_of drop_first
release_of-line base_url rq sum name h k =
    let parts : split_spaces (concat sum (concat " *" name)) ≡ sum ∷ prepend "*" name ∷ [] =
      ap (λ x. split_spaces (concat sum x)) (starred name)
      ∙ split_spaces-append sum (prepend "*" name) h
      ∙ ap (λ l. sum ∷ l) (split_spaces-word (prepend "*" name) k) in
    let made = λ (ps : List String). elim (filename_of ps) as (λ _. Option Release) [
      | none ↦ none
      | some f ↦ some (record {
        url = concat base_url (concat "/" (concat rq.version (concat "/" f)));
        checksum = first_part ps;
        version = rq.version;
      })
    ] in
    ap made parts
