-- ===== src/Validators/Words.antt =====
-- The names that the validators accept, described without a regular expression.
use Prim.Native.Char.{Char, code}
use text.Mathlib.TextEquality.{Char-path}
use text.Mathlib.TextLemmas.{cons-append, cons-ne-nil}
use codelab_auth_service.Common.{
  ℕ, ◌≤◌, String, ◌<>◌, ◌≡◌, ◌≢◌, ◌↔◌, ◌⊎◌, inl, inr, refl, sym, ap, ◌∙◌, Bool, true, false, ◌&&◌,
  none, arith, eqb, ◌==◌, eq_iff, eq-false_of_ne, Bool-cases,
}
use codelab_auth_service.Text.Chars.{char_count, all_chars}
use codelab_auth_service.Validators.{
  at_end, class_to_end, matches_class, is_word_char, is_client_char, validate_username,
  validate_client_id,
}

-- A text of the class, or one with a newline behind it.
abbrev pub IsLine : (ℕ → Bool) → String → Type 0
IsLine p s = (w : String) × (all_chars p w ≡ true) × ((s ≡ w) ⊎ (s ≡ w <> "\n"))

abbrev pub Matches : (ℕ → Bool) → String → Type 0
Matches p s = (w : String) × (w ≢ "") × (all_chars p w ≡ true) × ((s ≡ w) ⊎ (s ≡ w <> "\n"))

newline : Char
newline = "\n"

code_newline : (c : Char) → eqb (code c) 10 ≡ true → c ≡ "\n"
code_newline c e = Char-path c "\n" (ground arith)

at_end_text : (c : Char) (s : String) → at_end (String.◌∷◌ c s) ≡ true → String.◌∷◌ c s ≡ "\n"
at_end_text c s e =
    let same : c ≡ "\n" = code_newline c (ground arith) in
    let empty : s ≡ "" = (eq_iff s "").0 (ground arith) in rw (same, empty) refl

class_to_end-IsLine : (p : ℕ → Bool) (s : String) → class_to_end p s ≡ true → IsLine p s
unfolding class_to_end all_chars
class_to_end-IsLine p String.[] e = ("", refl, inl refl)
class_to_end-IsLine p (String.◌∷◌ c s) e = elim (Bool-cases (p (code c) && class_to_end p s)) [
  | inl more ↦
      let (w, ok, line) = class_to_end-IsLine p s (ground arith) in
      (
        String.◌∷◌ c w,
        ground arith,
        elim line [
          | inl same ↦ inl (ap (λ (x : String). String.◌∷◌ c x) same)
          | inr longer ↦
              inr (ap (λ (x : String). String.◌∷◌ c x) longer ∙ sym (cons-append c w "\n"))
        ],
      )
  | inr last ↦ ("", refl, inr (at_end_text c s (ground arith)))
]

class_to_end_word : (p : ℕ → Bool) (w : String) → all_chars p w ≡ true → class_to_end p w ≡ true
unfolding class_to_end all_chars
class_to_end_word p String.[] e = refl
class_to_end_word p (String.◌∷◌ c w) e = ground (arith, class_to_end_word p w)

class_to_end_line :
    (p : ℕ → Bool) (w : String) → all_chars p w ≡ true → class_to_end p (w <> "\n") ≡ true
unfolding class_to_end all_chars
class_to_end_line p String.[] e = ground arith
class_to_end_line p (String.◌∷◌ c w) e =
    rw (cons-append c w "\n") (ground (arith, class_to_end_line p w))

class_to_end-of_IsLine : (p : ℕ → Bool) (s : String) → IsLine p s → class_to_end p s ≡ true
class_to_end-of_IsLine p s (w, ok, inl same) = rw same (class_to_end_word p w ok)
class_to_end-of_IsLine p s (w, ok, inr longer) = rw longer (class_to_end_line p w ok)

-- Once the text begins with a character of the class, its word is not empty.
matches_class-Matches : (p : ℕ → Bool) (s : String) → matches_class p s ≡ true → Matches p s
unfolding matches_class all_chars
matches_class-Matches p String.[] e = cc
matches_class-Matches p (String.◌∷◌ c s) e =
    let (w, ok, line) = class_to_end-IsLine p s (ground arith) in
    (
      String.◌∷◌ c w,
      (λ h. cons-ne-nil c w h),
      ground arith,
      elim line [
        | inl same ↦ inl (ap (λ (x : String). String.◌∷◌ c x) same)
        | inr longer ↦ inr (ap (λ (x : String). String.◌∷◌ c x) longer ∙ sym (cons-append c w "\n"))
      ],
    )

matches_class-of_Matches : (p : ℕ → Bool) (s : String) → Matches p s → matches_class p s ≡ true
matches_class-of_Matches p s (String.[], full, ok, line) = absurd (full refl)
matches_class-of_Matches p s (String.◌∷◌ c w, full, ok, inl same) =
    rw same (unfold matches_class all_chars in ground (arith, class_to_end_word p w))
matches_class-of_Matches p s (String.◌∷◌ c w, full, ok, inr longer) =
    rw (longer, cons-append c w "\n")
      (unfold matches_class all_chars in ground (arith, class_to_end_line p w))

not_empty : (s : String) → 3 ≤ char_count s → (s == "") ≡ false
not_empty s h =
    eq-false_of_ne s "" (λ e. absurd (unfold char_count in omega (arith, ap char_count e)))

-- 3 to 255 characters that match the regular expression.
abbrev pub IsName : (ℕ → Bool) → String → Type 0
IsName p s = (3 ≤ char_count s) × (char_count s ≤ 255) × Matches p s

-- `validate_username` accepts a text exactly if it has 3 to 255 characters and is a word of the
-- letters A to Z and a to z, digits and underscores, or such a word and a newline;
-- `validate_client_id` does likewise, with the hyphen among the characters.
pub names_accepted :
    (s : String)
    → ((validate_username s ≡ none) ↔ IsName is_word_char s)
      × ((validate_client_id s ≡ none) ↔ IsName is_client_char s)
unfolding validate_username validate_client_id
names_accepted s = (
  (
    (λ e. (ground arith, ground arith, matches_class-Matches is_word_char s (ground arith))),
    (λ h. ground (arith, matches_class-of_Matches is_word_char s h.2, not_empty s h.0)),
  ),
  (
    (λ e. (ground arith, ground arith, matches_class-Matches is_client_char s (ground arith))),
    (λ h. ground (arith, matches_class-of_Matches is_client_char s h.2, not_empty s h.0)),
  ),
)
