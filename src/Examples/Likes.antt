-- ===== src/Examples/Likes.antt =====
-- Texts of db/like_test.go, and one with a backslash.
use Prim.Native.String.{◌++◌ as concat}
use go_o11y.Prelude.{◌≡◌, ◌↔◌, refl, String, true, false}
use go_o11y.Db.Like.{escape_like}
use go_o11y.Db.Like.Matched.{pieces, matches, like, like-escape_like}

escaped : escape_like "_im%rly %b_d" ≡ "\\_im\\%rly \\%b\\_d"
unfolding escape_like
escaped = refl

-- A backslash is not escaped, and the text is not like its own pattern.
escaped_backslash : like (escape_like "a\\b") "a\\b" ≡ false
unfolding escape_like like pieces matches
escaped_backslash = refl

like-escape_like_example :
    like (concat (escape_like "na_ght%y") "%") "na_ght%y!" ≡ true
    ↔ ((u : String) × ("na_ght%y!" ≡ concat "na_ght%y" u) × (like "%" u ≡ true))
like-escape_like_example = like-escape_like "na_ght%y" "%" "na_ght%y!" refl
