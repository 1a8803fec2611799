-- ===== src/Prelude/Texts.antt =====
-- Tests and parts of texts, under the names of the `strings` package.
use Prim.Native.Char.{code}
use Prim.Native.Nat.{ℕ}
use Prim.Native.String.{String, [], ◌∷◌}
use mathlib.Core.Bool.{Bool}
use text.Mathlib.Text.{◌==◌, find?}
use go_o11y.Prelude.Tests.{if◌then◌else◌, is_some}

-- Contains
unfoldable pub contains : String → String → Bool
contains s t = is_some (find? s t)

-- The number of the first character.
abbrev pub first_code : String → ℕ
first_code [] = 0
first_code (c ∷ s) = code c

-- TrimSuffix
unfoldable pub trim_suffix : String → String → String
trim_suffix [] t = []
trim_suffix (c ∷ s) t = let rest = trim_suffix s t in if (c ∷ s) == t then [] else c ∷ rest
