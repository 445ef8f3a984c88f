-- ===== src/TokenBlacklist/Keys.antt =====
-- The keys of the blacklist, of the users' sets and of the metadata.
use Prim.Native.Char.{code}
use text.Mathlib.TextLemmas.{append_cancel_left, append_assoc, cons-append, head-eq_of_cons-eq}
use codelab_auth_service.Common.{
  ℕ, ◌<◌, String, ◌<>◌, ◌≡◌, ◌≢◌, sym, ap, ◌∙◌, false, arith, ◌==◌, eq-false_of_ne, eq_refl,
  prefixed_eq,
}
use codelab_auth_service.TokenBlacklist.{blacklist_key, user_tokens_key, metadata_key, ttl_of}

-- The families of keys are apart.
metadata-ne-blacklist : (i j : String) → metadata_key i ≢ blacklist_key j
metadata-ne-blacklist i j e =
    let e' : ("metadata:" <> i) ≡ ("blacklist:" <> j) =
      append_cancel_left "token_" ("metadata:" <> i) ("blacklist:" <> j)
        (sym (append_assoc "token_" "metadata:" i) ∙ e ∙ append_assoc "token_" "blacklist:" j) in
    absurd (
      omega (
        arith,
        ap code (
            head-eq_of_cons-eq
              (sym (cons-append "m" "etadata:" i) ∙ e' ∙ cons-append "b" "lacklist:" j)),
      ))

user_tokens-ne-token : (u w : String) → ("user_tokens:" <> u) ≢ ("token_" <> w)
user_tokens-ne-token u w e = absurd (
    omega (
      arith,
      ap code (
          head-eq_of_cons-eq
            (sym (cons-append "u" "ser_tokens:" u) ∙ e ∙ cons-append "t" "oken_" w)),
    ))

pub user_tokens-apart_blacklist : (u j : String) → (user_tokens_key u == blacklist_key j) ≡ false
user_tokens-apart_blacklist u j =
    eq-false_of_ne (user_tokens_key u) (blacklist_key j)
      (λ e. user_tokens-ne-token u ("blacklist:" <> j) (e ∙ append_assoc "token_" "blacklist:" j))

pub user_tokens-apart_metadata : (u j : String) → (user_tokens_key u == metadata_key j) ≡ false
user_tokens-apart_metadata u j =
    eq-false_of_ne (user_tokens_key u) (metadata_key j)
      (λ e. user_tokens-ne-token u ("metadata:" <> j) (e ∙ append_assoc "token_" "metadata:" j))

pub blacklist-apart_user_tokens : (j u : String) → (blacklist_key j == user_tokens_key u) ≡ false
blacklist-apart_user_tokens j u =
    eq-false_of_ne (blacklist_key j) (user_tokens_key u)
      (λ e. cc (eq_refl (blacklist_key j), user_tokens-apart_blacklist u j, e))

pub metadata-apart_user_tokens : (j u : String) → (metadata_key j == user_tokens_key u) ≡ false
metadata-apart_user_tokens j u =
    eq-false_of_ne (metadata_key j) (user_tokens_key u)
      (λ e. cc (eq_refl (metadata_key j), user_tokens-apart_metadata u j, e))

pub metadata-apart_blacklist : (i j : String) → (metadata_key i == blacklist_key j) ≡ false
metadata-apart_blacklist i j =
    eq-false_of_ne (metadata_key i) (blacklist_key j) (metadata-ne-blacklist i j)

pub blacklist_key_eq : (i j : String) → (blacklist_key i == blacklist_key j) ≡ (i == j)
blacklist_key_eq i j = prefixed_eq "token_blacklist:" i j

pub ttl_pos : (now exp : ℕ) → 0 < ttl_of now exp
ttl_pos now exp = ground arith
