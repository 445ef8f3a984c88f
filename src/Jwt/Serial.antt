-- ===== src/Jwt/Serial.antt =====
-- Texts and numbers written one after the other, and read back.
use Prim.Native.Char.{Char, code}
use codelab_auth_service.Common.{
  ℕ, zero, suc, String, ◌≡◌, refl, Option, none, some, eqb, if◌then◌else◌,
}

-- A text, each character behind a `c`, and an `e` at its end.
unfoldable pub put_text : String → String → String
put_text String.[] rest = String.◌∷◌ "e" rest
put_text (String.◌∷◌ c s) rest = String.◌∷◌ "c" (String.◌∷◌ c (put_text s rest))

abbrev cons_text : Char → Option (String × String) → Option (String × String)
cons_text c none = none
cons_text c (some (s, rest)) = some (String.◌∷◌ c s, rest)

unfoldable pub take_text : String → Option (String × String)
take_text String.[] = none
take_text (String.◌∷◌ k String.[]) = if eqb (code k) b'e' then some ("", "") else none
take_text (String.◌∷◌ k (String.◌∷◌ c rest)) =
    let further = take_text rest in
    if eqb (code k) b'e' then some ("", String.◌∷◌ c rest) else cons_text c further

pub take-put_text : (s rest : String) → take_text (put_text s rest) ≡ some (s, rest)
unfolding take_text put_text
take-put_text String.[] String.[] = refl
take-put_text String.[] (String.◌∷◌ c rest) = refl
take-put_text (String.◌∷◌ c s) rest = rw (take-put_text s rest) refl

unfoldable pub put_number : ℕ → String → String
put_number zero rest = String.◌∷◌ "e" rest
put_number (suc n) rest = String.◌∷◌ "c" (put_number n rest)

abbrev suc_number : Option (ℕ × String) → Option (ℕ × String)
suc_number none = none
suc_number (some (n, rest)) = some (suc n, rest)

unfoldable pub take_number : String → Option (ℕ × String)
take_number String.[] = none
take_number (String.◌∷◌ k rest) =
    let further = take_number rest in
    if eqb (code k) b'e' then some (0, rest) else suc_number further

pub take-put_number : (n : ℕ) (rest : String) → take_number (put_number n rest) ≡ some (n, rest)
unfolding take_number put_number
take-put_number zero rest = refl
take-put_number (suc n) rest = rw (take-put_number n rest) refl
