-- ===== src/TokenService.antt =====
-- app/services/token_service.py: `class TokenService`, and app/schemas/token.py: `TokenPair`. The
-- payloads `AccessTokenPayload` and `RefreshTokenPayload` are JwtPayload. A result is `none` where
-- the method raises.
pub mod Lifetimes
mod Tests
use mathlib.Core.Option
use codelab_auth_service.Common.{
  ℕ, ◌+◌, ◌*◌, ◌/◌, String, Bool, true, Option, none, some, ◌==◌, if◌then◌else◌,
}
use codelab_auth_service.Jwt.Interface.{Jwt}
use codelab_auth_service.JwtPayload.{TokenType, token_type_value, JwtPayload}
use codelab_auth_service.RefreshTokenService.{second}
use codelab_auth_service.Settings.{Settings}

abbrev pub lifetime_or : Option ℕ → ℕ → ℕ
lifetime_or none default = default
lifetime_or (some lifetime) default = lifetime

-- `int(t.timestamp())`
abbrev pub timestamp : ℕ → ℕ
timestamp t = t / second

-- The payload of a token of a type and a lifetime made at `now`, with the drawn identifier `jti`.
abbrev pub new_payload :
    Settings → TokenType → String → String → String → ℕ → ℕ → String → JwtPayload
new_payload settings type user_id client_id scope lifetime now jti = record {
  iss = settings.jwt_issuer;
  sub = user_id;
  aud = settings.jwt_audience;
  exp = timestamp (now + lifetime * second);
  iat = timestamp now;
  nbf = timestamp now;
  jti = jti;
  type = type;
  client_id = client_id;
  scope = scope;
}

pub record TokenPair : Type 0 where
  pub access_token : String
  pub refresh_token : String
  pub access_token_payload : JwtPayload
  pub refresh_token_payload : JwtPayload

-- `payload.get("type") != TokenType.…`, negated.
abbrev pub has_type : TokenType → Option String → Bool
has_type type none = Bool.false
has_type type (some s) = s == token_type_value type

module _ (jwt : Jwt) (settings : Settings) where
  unfoldable pub create_access_token :
      String → String → String → Option ℕ → ℕ → String → String × JwtPayload
  create_access_token user_id client_id scope lifetime now jti =
      let payload =
        new_payload settings TokenType.access user_id client_id scope
          (lifetime_or lifetime settings.access_token_lifetime) now jti in
      (jwt.encode (jwt.dump payload), payload)

  unfoldable pub create_refresh_token :
      String → String → String → Option ℕ → ℕ → String → String × JwtPayload
  create_refresh_token user_id client_id scope lifetime now jti =
      let payload =
        new_payload settings TokenType.refresh user_id client_id scope
          (lifetime_or lifetime settings.refresh_token_lifetime) now jti in
      (jwt.encode (jwt.dump payload), payload)

  -- The clock is read, and an identifier drawn, for each of the two tokens.
  unfoldable pub create_token_pair :
      String → String → String → Option ℕ → Option ℕ → (ℕ → ℕ) → (ℕ → String) → TokenPair
  unfolding create_access_token create_refresh_token
  create_token_pair user_id client_id scope access_lifetime refresh_lifetime clock jti =
      let (access_token, access_payload) =
        create_access_token user_id client_id scope access_lifetime (clock 0) (jti 0) in
      let (refresh_token, refresh_payload) =
        create_refresh_token user_id client_id scope refresh_lifetime (clock 1) (jti 1) in
      record {
        access_token = access_token;
        refresh_token = refresh_token;
        access_token_payload = access_payload;
        refresh_token_payload = refresh_payload;
      }

  unfoldable pub decode_token : Bool → ℕ → String → Option jwt.Claims
  decode_token verify now token =
      jwt.decode verify now settings.jwt_audience settings.jwt_issuer token

  -- The payload of claims that have a type.
  unfoldable pub read_as : TokenType → Option jwt.Claims → Option JwtPayload
  read_as type none = none
  read_as type (some claims) = if has_type type (jwt.type_of claims) then jwt.load claims else none

  unfoldable pub validate_access_token : ℕ → String → Option JwtPayload
  unfolding decode_token read_as
  validate_access_token now token = read_as TokenType.access (decode_token true now token)

  unfoldable pub validate_refresh_token : ℕ → String → Option JwtPayload
  unfolding decode_token read_as
  validate_refresh_token now token = read_as TokenType.refresh (decode_token true now token)
