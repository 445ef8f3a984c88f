-- ===== src/Text/Split.antt =====
-- Words that are joined by spaces are what the text splits into.
use Prim.Native.Char.{Char}
use text.Mathlib.TextLemmas.{cons-append, nil-append}
use codelab_auth_service.Common.{
  String, ◌<>◌, ◌≡◌, ◌≢◌, refl, ap, ◌∙◌, false, List, [], ◌∷◌, arith, ◌==◌, eq_iff, eq-false_of_ne,
  Bool-cases, inl, inr, All, if◌then◌else◌,
}
use codelab_auth_service.Text.{is_space, scan, split, join}

-- A text without a space.
abbrev pub NoSpace : String → Type 0
NoSpace String.[] = Unit
NoSpace (String.◌∷◌ c s) = (is_space c ≡ false) × NoSpace s

abbrev pub IsWord : String → Type 0
IsWord w = (w ≢ "") × NoSpace w

scan-NoSpace : (w : String) → NoSpace w → scan w ≡ (w, [])
unfolding scan
scan-NoSpace String.[] h = refl
scan-NoSpace (String.◌∷◌ c s) h = ground (arith, scan-NoSpace s h.1)

scan_space : (s : String) → scan (" " <> s) ≡ ("", split s)
unfolding scan split
scan_space s = rw (cons-append " " "" s, nil-append s)

scan_letter :
    (c : Char) (s : String)
    → is_space c ≡ false
    → scan (String.◌∷◌ c s) ≡ (String.◌∷◌ c (scan s).0, (scan s).1)
unfolding scan
scan_letter c s h = simp h

scan-append_space : (w s : String) → NoSpace w → scan (w <> (" " <> s)) ≡ (w, split s)
scan-append_space String.[] s h = rw (nil-append (" " <> s)) (scan_space s)
scan-append_space (String.◌∷◌ c w) s h = rw (cons-append c w (" " <> s)) (
    scan_letter c (w <> (" " <> s)) h.0
    ∙ ap (λ (r : String × List String). (String.◌∷◌ c r.0, r.1)) (scan-append_space w s h.1))

pub split-join : (ws : List String) → All IsWord ws → split (join ws) ≡ ws
unfolding split join
split-join [] h = unfold scan in refl
split-join (w ∷ []) h = ground (arith, scan-NoSpace w h.0.1, eq-false_of_ne w "" h.0.0)
split-join (w ∷ v ∷ ws) h = ground (
  arith,
  scan-append_space w (join (v ∷ ws)) h.0.1,
  eq-false_of_ne w "" h.0.0,
  split-join (v ∷ ws) h.1,
)

IsWord-of_NoSpace :
    (w : String) (ws : List String)
    → NoSpace w
    → All IsWord ws
    → All IsWord (if w == "" then ws else w ∷ ws)
IsWord-of_NoSpace w ws n h = elim (Bool-cases (w == "")) [
  | inl empty ↦ rw empty h
  | inr full ↦ rw full ((λ e. cc (full, (eq_iff w "").1 e), n), h)
]

-- The words of a text are words.
scan-IsWord : (s : String) → NoSpace (scan s).0 × All IsWord (scan s).1
unfolding scan
scan-IsWord String.[] = (tt, tt)
scan-IsWord (String.◌∷◌ c s) =
    let (n, h) = scan-IsWord s in
    elim (Bool-cases (is_space c)) [
      | inl space ↦ rw space (tt, IsWord-of_NoSpace (scan s).0 (scan s).1 n h)
      | inr letter ↦ simp letter ((refl, n), h)
    ]

pub split-IsWord : (s : String) → All IsWord (split s)
unfolding split
split-IsWord s = IsWord-of_NoSpace (scan s).0 (scan s).1 (scan-IsWord s).0 (scan-IsWord s).1
