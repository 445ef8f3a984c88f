-- ===== src/JwtPayload.antt =====
-- app/schemas/token.py: the payload of a token. `AccessTokenPayload` and `RefreshTokenPayload` have
-- the same fields, and differ in the value of `type`.
use codelab_auth_service.Common.{ℕ, String}

pub data TokenType : Type 0 where
  access refresh : TokenType

-- The value of the enumeration, which the JWT carries.
abbrev pub token_type_value : TokenType → String
token_type_value TokenType.access = "access"
token_type_value TokenType.refresh = "refresh"

pub record JwtPayload : Type 0 where
  pub iss : String
  pub sub : String
  pub aud : String
  pub exp : ℕ
  pub iat : ℕ
  pub nbf : ℕ
  pub jti : String
  pub type : TokenType
  pub client_id : String
  pub scope : String
