-- ===== src/Validators.antt =====
-- app/utils/validators.py. A validator returns `(True, None)`, here `none`, or False with a message,
-- here the reason that the message gives. The special characters are those of the setting's default
-- pattern. In `re.match("^…$", text)` the `$` also stands before a newline that ends the text.
pub mod Words
mod Tests
use Prim.Native.Char.{code}
use codelab_auth_service.Common.{
  ℕ, ◌+◌, String, Bool, true, false, not, ◌&&◌, ◌||◌, Option, none, some, List, [], ◌∷◌, leb, ltb,
  eqb, ◌==◌, if◌then◌else◌,
}
use codelab_auth_service.Settings.{Settings}
use codelab_auth_service.Text.{split}
use codelab_auth_service.Text.Chars.{char_count, any_char, is_upper, is_lower, is_digit, is_letter}

pub data Reason : Type 0 where
  required : Reason
  too_short : ℕ → Reason
  too_long : ℕ → Reason
  no_uppercase no_lowercase no_digit no_special : Reason
  bad_format : Reason
  bad_scope : String → Reason
  long_scope : String → Reason

-- What `$` matches: the end, or the newline that ends the text.
abbrev pub at_end : String → Bool
at_end String.[] = true
at_end (String.◌∷◌ c s) = eqb (code c) 10 && s == ""

-- `[class]*$`
unfoldable pub class_to_end : (ℕ → Bool) → String → Bool
class_to_end p String.[] = true
class_to_end p (String.◌∷◌ c s) = (p (code c) && class_to_end p s) || at_end (String.◌∷◌ c s)

-- `^[class]+$`
unfoldable pub matches_class : (ℕ → Bool) → String → Bool
unfolding class_to_end
matches_class p String.[] = false
matches_class p (String.◌∷◌ c s) = p (code c) && class_to_end p s

abbrev pub is_one_of : List ℕ → ℕ → Bool
is_one_of [] c = false
is_one_of (x ∷ xs) c = eqb x c || is_one_of xs c

-- `[a-zA-Z]{2,}$`
unfoldable pub top_level : String → Bool
unfolding class_to_end
top_level String.[] = false
top_level (String.◌∷◌ c String.[]) = false
top_level (String.◌∷◌ c (String.◌∷◌ d s)) =
    is_letter (code c) && (is_letter (code d) && class_to_end is_letter s)

abbrev pub is_domain_char : ℕ → Bool
is_domain_char c = is_letter c || (is_digit c || (eqb c b'.' || eqb c b'-'))

-- `[a-zA-Z0-9.-]*\\.[a-zA-Z]{2,}$`, with no dot at the place if nothing stands before it.
unfoldable pub domain : Bool → String → Bool
unfolding top_level
domain seen String.[] = false
domain seen (String.◌∷◌ c s) =
    (seen && (eqb (code c) b'.' && top_level s)) || (is_domain_char (code c) && domain true s)

abbrev pub is_local_char : ℕ → Bool
is_local_char c =
    is_letter c
    || (is_digit c || (eqb c b'.' || (eqb c b'_' || (eqb c b'%' || (eqb c b'+' || eqb c b'-')))))

-- `[a-zA-Z0-9._%+-]*@…`, with no @ at the place if nothing stands before it.
unfoldable pub local_part : Bool → String → Bool
unfolding domain
local_part seen String.[] = false
local_part seen (String.◌∷◌ c s) =
    (seen && (eqb (code c) b'@' && domain false s)) || (is_local_char (code c) && local_part true s)

unfoldable pub validate_email : String → Option Reason
unfolding local_part char_count
validate_email email =
    if email == ""
    then some required
    else if not (local_part false email)
    then some bad_format
    else if ltb 255 (char_count email)
    then some (too_long 255)
    else none

-- The decimal digits zero of Unicode 15; the other nine follow each.
abbrev decimal_zeros : List ℕ
decimal_zeros =
    48 ∷ 1632 ∷ 1776 ∷ 1984 ∷ 2406 ∷ 2534 ∷ 2662 ∷ 2790 ∷ 2918 ∷ 3046 ∷ 3174 ∷ 3302 ∷ 3430 ∷ 3558
    ∷ 3664 ∷ 3792 ∷ 3872 ∷ 4160 ∷ 4240 ∷ 6112 ∷ 6160 ∷ 6470 ∷ 6608 ∷ 6784 ∷ 6800 ∷ 6992 ∷ 7088
    ∷ 7232 ∷ 7248 ∷ 42528 ∷ 43216 ∷ 43264 ∷ 43472 ∷ 43504 ∷ 43600 ∷ 44016 ∷ 65296 ∷ 66720 ∷ 68912
    ∷ 69734 ∷ 69872 ∷ 69942 ∷ 70096 ∷ 70384 ∷ 70736 ∷ 70864 ∷ 71248 ∷ 71360 ∷ 71472 ∷ 71904 ∷ 72016
    ∷ 72784 ∷ 73040 ∷ 73120 ∷ 73552 ∷ 92768 ∷ 92864 ∷ 93008 ∷ 120782 ∷ 120792 ∷ 120802 ∷ 120812
    ∷ 120822 ∷ 123200 ∷ 123632 ∷ 124144 ∷ 125264 ∷ 130032 ∷ []

-- `\\d`
unfoldable pub is_decimal : ℕ → Bool
is_decimal c = near c decimal_zeros
  where
    near : ℕ → List ℕ → Bool
    near c [] = false
    near c (x ∷ xs) = (leb x c && leb c (x + 9)) || near c xs

-- `[!@#$%^&*(),.?":{}|<>]`
abbrev pub is_special : ℕ → Bool
is_special = is_one_of (
    33 ∷ 64 ∷ 35 ∷ 36 ∷ 37 ∷ 94 ∷ 38 ∷ 42 ∷ 40 ∷ 41 ∷ 44 ∷ 46 ∷ 63 ∷ 34 ∷ 58 ∷ 123 ∷ 125 ∷ 124 ∷ 60
    ∷ 62 ∷ [])

unfoldable pub validate_password : Settings → String → Option Reason
unfolding char_count any_char is_decimal
validate_password settings password =
    if password == ""
    then some required
    else if ltb (char_count password) settings.password_min_length
    then some (too_short settings.password_min_length)
    else if ltb settings.password_max_length (char_count password)
    then some (too_long settings.password_max_length)
    else if settings.password_require_uppercase && not (any_char is_upper password)
    then some no_uppercase
    else if settings.password_require_lowercase && not (any_char is_lower password)
    then some no_lowercase
    else if settings.password_require_digits && not (any_char is_decimal password)
    then some no_digit
    else if settings.password_require_special_chars && not (any_char is_special password)
    then some no_special
    else none

abbrev pub is_word_char : ℕ → Bool
is_word_char c = is_letter c || (is_digit c || eqb c b'_')

unfoldable pub validate_username : String → Option Reason
unfolding matches_class char_count
validate_username username =
    if username == ""
    then some required
    else if ltb (char_count username) 3
    then some (too_short 3)
    else if ltb 255 (char_count username)
    then some (too_long 255)
    else if not (matches_class is_word_char username)
    then some bad_format
    else none

abbrev pub is_scope_char : ℕ → Bool
is_scope_char c =
    is_letter c || (is_digit c || (eqb c b'_' || (eqb c b':' || (eqb c b'.' || eqb c b'-'))))

-- The loop of `validate_scope`.
check_scopes : List String → Option Reason
unfolding matches_class char_count
check_scopes [] = none
check_scopes (s ∷ scopes) =
    let rest = check_scopes scopes in
    if not (matches_class is_scope_char s)
    then some (bad_scope s)
    else if ltb 100 (char_count s)
    then some (long_scope s)
    else rest

unfoldable pub validate_scope : String → Option Reason
unfolding check_scopes
validate_scope scope = if scope == "" then none else check_scopes (split scope)

abbrev pub is_client_char : ℕ → Bool
is_client_char c = is_letter c || (is_digit c || (eqb c b'_' || eqb c b'-'))

unfoldable pub validate_client_id : String → Option Reason
unfolding matches_class char_count
validate_client_id client_id =
    if client_id == ""
    then some required
    else if ltb (char_count client_id) 3
    then some (too_short 3)
    else if ltb 255 (char_count client_id)
    then some (too_long 255)
    else if not (matches_class is_client_char client_id)
    then some bad_format
    else none
