-- ===== src/Base/Affixes.antt =====
-- Parts of texts: `strings.HasPrefix`, `strings.HasSuffix`, `strings.Contains` of one character, and
-- `strings.ToLower` on the letters of ASCII.
use Prim.Native.Nat.{ℕ, ◌-◌}
use Prim.Native.Char.{Char, code}
use Prim.Native.String.{String, char_at}
use mathlib.Core.Bool.{Bool, true, false, ◌&&◌, ◌||◌}
use mathlib.Core.Path.{◌≡◌, refl}
use goshop_x.Base.Tests.{leb, ◌==◌, if◌then◌else◌}
use goshop_x.Base.Text.{same}

unfoldable pub has_prefix : String → String → Bool
has_prefix s String.[] = true
has_prefix String.[] (String.◌∷◌ d p) = false
has_prefix (String.◌∷◌ c s) (String.◌∷◌ d p) = code c == code d && has_prefix s p

unfoldable pub has_suffix : String → String → Bool
has_suffix String.[] p = same String.[] p
has_suffix (String.◌∷◌ c s) p = same (String.◌∷◌ c s) p || has_suffix s p

unfoldable pub contains_code : String → ℕ → Bool
contains_code String.[] k = false
contains_code (String.◌∷◌ c s) k = code c == k || contains_code s k

lower : Char → Char
lower c =
    if leb b'A' (code c) && leb (code c) b'Z'
    then char_at "abcdefghijklmnopqrstuvwxyz" (code c - b'A')
    else c

unfoldable pub to_lower : String → String
unfolding lower
to_lower String.[] = String.[]
to_lower (String.◌∷◌ c s) = String.◌∷◌ (lower c) (to_lower s)

found_affixes :
    has_prefix "data:image/png" "data:image/" && has_suffix "support_admin" "_admin" ≡ true
unfolding has_prefix has_suffix
found_affixes = refl
