-- ===== src/Db/Like.antt =====
-- The escaping of texts for patterns of LIKE (db/like.go).
pub mod Matched
use Prim.Native.Char.{code}
use Prim.Native.String.{[] as empty, ◌∷◌ as prepend}
use go_o11y.Prelude.{String, ◌==◌, if◌then◌else◌}

-- EscapeLike
unfoldable pub escape_like : String → String
escape_like empty = empty
escape_like (prepend c s) =
    let rest = escape_like s in
    if code c == 95
    then prepend "\\" (prepend "_" rest)
    else if code c == 37
    then prepend "\\" (prepend "%" rest)
    else prepend c rest
