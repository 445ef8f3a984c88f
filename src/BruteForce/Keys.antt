-- ===== src/BruteForce/Keys.antt =====
-- The keys of the counters of failed attempts, and the failures of a history that bear on a key.
use Prim.Native.Char.{code}
use text.Mathlib.TextLemmas.{append_cancel_left, append_assoc, cons-append, head-eq_of_cons-eq}
use codelab_auth_service.Common.{
  ℕ, ◌+◌, String, ◌<>◌, ◌≡◌, ◌≢◌, sym, ap, ◌∙◌, List, [], ◌∷◌, arith, ◌==◌, eq-false_of_ne,
  prefixed_eq, refl, if◌then◌else◌,
}
use codelab_auth_service.BruteForce.{failed_username_key, failed_ip_key}

-- The two families of keys are apart.
pub keys_apart : (u i : String) → failed_username_key u ≢ failed_ip_key i
keys_apart u i e =
    let e' : ("username:" <> u) ≡ ("ip:" <> i) =
      append_cancel_left "failed_attempts:" ("username:" <> u) ("ip:" <> i) (
        sym (append_assoc "failed_attempts:" "username:" u)
        ∙ e
        ∙ append_assoc "failed_attempts:" "ip:" i) in
    absurd (
      omega (
        arith,
        ap code
            (head-eq_of_cons-eq (sym (cons-append "u" "sername:" u) ∙ e' ∙ cons-append "i" "p:" i)),
      ))

pub failed_username_key_eq :
    (u v : String) → (failed_username_key u == failed_username_key v) ≡ (u == v)
failed_username_key_eq u v = prefixed_eq "failed_attempts:username:" u v

pub failed_ip_key_eq : (i j : String) → (failed_ip_key i == failed_ip_key j) ≡ (i == j)
failed_ip_key_eq i j = prefixed_eq "failed_attempts:ip:" i j

-- A history: failed attempts by username and address, each followed by some seconds.
abbrev pub Failures : Type 0
Failures = List (String × String × ℕ)

abbrev pub failures_of_username : String → Failures → ℕ
failures_of_username u [] = 0
failures_of_username u ((v, i, d) ∷ h) = (if v == u then 1 else 0) + failures_of_username u h

abbrev pub failures_of_ip : String → Failures → ℕ
failures_of_ip i [] = 0
failures_of_ip i ((v, j, d) ∷ h) = (if j == i then 1 else 0) + failures_of_ip i h

abbrev pub elapsed : Failures → ℕ
elapsed [] = 0
elapsed ((v, i, d) ∷ h) = d + elapsed h

-- The failures that bear on a key of the server.
abbrev pub hits : String → Failures → ℕ
hits k [] = 0
hits k ((v, i, d) ∷ h) =
    (if failed_username_key v == k then 1 else if failed_ip_key i == k then 1 else 0) + hits k h

pub hits_username :
    (u : String) (h : Failures) → hits (failed_username_key u) h ≡ failures_of_username u h
hits_username u [] = refl
hits_username u ((v, i, d) ∷ h) = ground (
  arith,
  failed_username_key_eq v u,
  eq-false_of_ne (failed_ip_key i) (failed_username_key u) (λ e. keys_apart u i (sym e)),
  hits_username u h,
)

pub hits_ip : (i : String) (h : Failures) → hits (failed_ip_key i) h ≡ failures_of_ip i h
hits_ip i [] = refl
hits_ip i ((v, j, d) ∷ h) = ground (
  arith,
  failed_ip_key_eq j i,
  eq-false_of_ne (failed_username_key v) (failed_ip_key i) (keys_apart v i),
  hits_ip i h,
)
