-- ===== src/Claims/Roles.antt =====
-- The regular expression `^[A-Za-z0-9_:./-]{1,128}$` of internal/trustedclaims/roles.go.
use Prim.Native.Nat.{ℕ}
use Prim.Native.Char.{Char, code}
use Prim.Native.String.{String, [], ◌∷◌, len}
use mathlib.Core.Bool.{Bool, true, ◌&&◌, ◌||◌}
use ouf_mcp_server.Prelude.{leb, ◌==◌}

abbrev between : ℕ → ℕ → ℕ → Bool
between low high n = leb low n && leb n high

-- The code points of `-`, `.`, `/`, the digits and `:` are 45 to 58, that of `_` is 95.
abbrev role_character : Char → Bool
role_character c =
    between 65 90 (code c) || between 97 122 (code c) || between 45 58 (code c) || code c == 95

unfoldable pub role_text : String → Bool
role_text [] = true
role_text (c ∷ s) = role_character c && role_text s

unfoldable pub role_id : String → Bool
unfolding role_text
role_id role = between 1 128 (len role) && role_text role
