-- ===== src/Text/Chars.antt =====
-- Python's `len`, `str.lower()`, `str.strip()`, `in` and `text.split(",")[0]` on texts, and the
-- character classes of the regular expressions.
use Prim.Native.Char.{code}
use codelab_auth_service.Common.{
  ℕ, suc, ◌+◌, String, Bool, true, false, ◌&&◌, ◌||◌, List, [], ◌∷◌, leb, eqb, ◌==◌, if◌then◌else◌,
}
use codelab_auth_service.Text.{is_space}

-- `len(text)`: the number of its code points.
unfoldable pub char_count : String → ℕ
char_count String.[] = 0
char_count (String.◌∷◌ c s) = suc (char_count s)

unfoldable pub all_chars : (ℕ → Bool) → String → Bool
all_chars p String.[] = true
all_chars p (String.◌∷◌ c s) = p (code c) && all_chars p s

unfoldable pub any_char : (ℕ → Bool) → String → Bool
any_char p String.[] = false
any_char p (String.◌∷◌ c s) = p (code c) || any_char p s

abbrev pub is_upper : ℕ → Bool
is_upper c = leb b'A' c && leb c b'Z'

abbrev pub is_lower : ℕ → Bool
is_lower c = leb b'a' c && leb c b'z'

abbrev pub is_digit : ℕ → Bool
is_digit c = leb b'0' c && leb c b'9'

abbrev pub is_letter : ℕ → Bool
is_letter c = is_upper c || is_lower c

-- The code points of `text.lower()`, where only the letters A to Z change. A test of the result
-- against a text of the letters a to z without k is Python's: no other character's lower case is
-- one of these.
unfoldable pub lower_codes : String → List ℕ
lower_codes String.[] = []
lower_codes (String.◌∷◌ c s) = (if is_upper (code c) then code c + 32 else code c) ∷ lower_codes s

unfoldable pub begins_codes : List ℕ → List ℕ → Bool
begins_codes [] xs = true
begins_codes (w ∷ ws) [] = false
begins_codes (w ∷ ws) (x ∷ xs) = eqb w x && begins_codes ws xs

-- `word in text.lower()`, on the code points.
unfoldable pub within_codes : List ℕ → List ℕ → Bool
unfolding begins_codes
within_codes ws [] = begins_codes ws []
within_codes ws (x ∷ xs) = begins_codes ws (x ∷ xs) || within_codes ws xs

unfoldable pub same_codes : List ℕ → List ℕ → Bool
same_codes [] [] = true
same_codes (x ∷ xs) (y ∷ ys) = eqb x y && same_codes xs ys
same_codes _ _ = false

unfoldable pub codes : String → List ℕ
codes String.[] = []
codes (String.◌∷◌ c s) = code c ∷ codes s

-- `text.split(",")[0]`
unfoldable pub before_comma : String → String
before_comma String.[] = ""
before_comma (String.◌∷◌ c s) = if eqb (code c) b',' then "" else String.◌∷◌ c (before_comma s)

unfoldable pub strip_left : String → String
unfolding is_space
strip_left String.[] = ""
strip_left (String.◌∷◌ c s) = let rest = strip_left s in if is_space c then rest else String.◌∷◌ c s

unfoldable pub strip_right : String → String
unfolding is_space
strip_right String.[] = ""
strip_right (String.◌∷◌ c s) =
    let rest = strip_right s in if is_space c && rest == "" then "" else String.◌∷◌ c rest

unfoldable pub strip : String → String
unfolding strip_left strip_right
strip s = strip_right (strip_left s)
