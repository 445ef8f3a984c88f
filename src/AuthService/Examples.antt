-- ===== src/AuthService/Examples.antt =====
-- Requests of a public client, for concrete runs.
use codelab_auth_service.Common.{ℕ, String, none, some, eqb, if◌then◌else◌}
use codelab_auth_service.AuthService.{TokenRequest}
use codelab_auth_service.Jwt.Plain.{plain}
use codelab_auth_service.JwtPayload.{TokenType, JwtPayload}
use codelab_auth_service.OauthClient.{GrantType}
use codelab_auth_service.Settings.{default_settings}

-- The token of a row, by its identifier.
abbrev pub payload : String → JwtPayload
payload jti = record {
  iss = default_settings.jwt_issuer;
  sub = "ann";
  aud = default_settings.jwt_audience;
  exp = 9;
  iat = 1;
  nbf = 1;
  jti = jti;
  type = TokenType.refresh;
  client_id = "web";
  scope = "read";
}

abbrev pub presenting : String → TokenRequest
presenting jti = record {
  grant_type = GrantType.refresh_token;
  client_id = "web";
  username = none;
  password = none;
  refresh_token = some (plain.encode (payload jti));
  scope = none;
}

abbrev pub ticks : ℕ → ℕ → ℕ
ticks k i = 7000000

abbrev pub drawn : ℕ → ℕ → String
drawn k i = if eqb k 0 then (if eqb i 0 then "x" else "y") else "z"

abbrev pub entering : TokenRequest
entering = record {
  grant_type = GrantType.password;
  client_id = "web";
  username = some "ann";
  password = some "secret-a";
  refresh_token = none;
  scope = some "write read";
}
