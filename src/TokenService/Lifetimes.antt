-- ===== src/TokenService/Lifetimes.antt =====
-- When the tokens of a pair are accepted, and as what.
use codelab_auth_service.Common.{
  ℕ, String, ◌≡◌, inl, inr, refl, sym, ap, ◌∙◌, Bool, Bool-cases, true, false, ◌&&◌, Option, none,
  some, arith, leb, if◌then◌else◌,
}
use codelab_auth_service.Jwt.Interface.{Jwt, IsLawful}
use codelab_auth_service.JwtPayload.{TokenType, token_type_value, JwtPayload}
use codelab_auth_service.Settings.{Settings}
use codelab_auth_service.TokenService.{
  create_access_token, create_refresh_token, create_token_pair, validate_access_token,
  validate_refresh_token, decode_token, read_as, new_payload, has_type, lifetime_or,
}

-- The seconds at which a payload is valid.
abbrev pub is_live : JwtPayload → ℕ → Bool
is_live p now = leb p.nbf now && leb now p.exp

-- A token and the type that it is read as.
abbrev same_type : TokenType → TokenType → Bool
same_type TokenType.access TokenType.access = true
same_type TokenType.refresh TokenType.refresh = true
same_type TokenType.access TokenType.refresh = false
same_type TokenType.refresh TokenType.access = false

has_type_value : (s t : TokenType) → has_type s (some (token_type_value t)) ≡ same_type s t
has_type_value TokenType.access TokenType.access = refl
has_type_value TokenType.access TokenType.refresh = refl
has_type_value TokenType.refresh TokenType.access = refl
has_type_value TokenType.refresh TokenType.refresh = refl

module _ (jwt : Jwt) (settings : Settings) (laws : IsLawful jwt) where
  decoded :
      (p : JwtPayload) (now : ℕ)
      → jwt.decode true now p.aud p.iss (jwt.encode (jwt.dump p))
        ≡ (if is_live p now then some (jwt.dump p) else none)
  decoded p now = elim (Bool-cases (leb p.nbf now)) [
    | inl begun ↦ elim (Bool-cases (leb now p.exp)) [
      | inl live ↦ rw (begun, live) (laws.decode-encode p now (ground arith) (ground arith))
      | inr late ↦ rw (begun, late) (laws.decode_expired p now p.aud p.iss (ground arith))
    ]
    | inr early ↦ rw early (laws.decode_early p now p.aud p.iss (ground arith))
  ]

  read_claims :
      (type : TokenType) (p : JwtPayload) (live : Bool)
      → read_as jwt settings type (if live then some (jwt.dump p) else none)
        ≡ (if same_type type p.type && live then some p else none)
  unfolding read_as
  read_claims type p false = ground arith
  read_claims type p true =
      rw (laws.type_of-dump p, has_type_value type p.type, laws.load-dump p) (ground arith)

  read_token :
      (type : TokenType) (p : JwtPayload) (now : ℕ)
      → p.aud ≡ settings.jwt_audience
      → p.iss ≡ settings.jwt_issuer
      → read_as jwt settings type (decode_token jwt settings true now (jwt.encode (jwt.dump p)))
        ≡ (if same_type type p.type && is_live p now then some p else none)
  unfolding decode_token
  read_token type p now aud iss =
      let token = jwt.encode (jwt.dump p) in
      ap (read_as jwt settings type) (
        ap (λ (a : String). jwt.decode true now a settings.jwt_issuer token) (sym aud)
        ∙ ap (λ (i : String). jwt.decode true now p.aud i token) (sym iss)
        ∙ decoded p now)
      ∙ read_claims type p (is_live p now)

  -- With a lawful JWT library: at a second from `nbf` to `exp` the access token of a new pair is
  -- validated as an access token with its payload, at any other second it is refused, and it is
  -- never validated as a refresh token; the same holds of the refresh token, the other way round.
  pub pair_accepted :
      (user_id client_id scope : String) (access_lifetime refresh_lifetime : Option ℕ)
      (clock : ℕ → ℕ) (jti : ℕ → String) (now : ℕ)
      → let pair =
          create_token_pair jwt settings user_id client_id scope access_lifetime refresh_lifetime
            clock jti in
        (validate_access_token jwt settings now pair.access_token ≡ (
          if is_live pair.access_token_payload now then some pair.access_token_payload else none))
        × (validate_refresh_token jwt settings now pair.access_token ≡ none)
        × (validate_refresh_token jwt settings now pair.refresh_token ≡ (
            if is_live pair.refresh_token_payload now
            then some pair.refresh_token_payload
            else none))
        × (validate_access_token jwt settings now pair.refresh_token ≡ none)
  unfolding create_token_pair create_access_token create_refresh_token validate_access_token
      validate_refresh_token
  pair_accepted user_id client_id scope access_lifetime refresh_lifetime clock jti now =
      let access =
        new_payload settings TokenType.access user_id client_id scope
          (lifetime_or access_lifetime settings.access_token_lifetime) (clock 0) (jti 0) in
      let refresh =
        new_payload settings TokenType.refresh user_id client_id scope
          (lifetime_or refresh_lifetime settings.refresh_token_lifetime) (clock 1) (jti 1) in
      (
        read_token TokenType.access access now refl refl,
        read_token TokenType.refresh access now refl refl,
        read_token TokenType.refresh refresh now refl refl,
        read_token TokenType.access refresh now refl refl,
      )
