-- ===== src/Jwt/Interface.antt =====
-- python-jose and pydantic as the token service uses them, with the service's key pair. They are
-- not part of the repository, so this is an interface with laws. Times are in seconds.
use codelab_auth_service.Common.{ℕ, ◌≤◌, ◌<◌, String, ◌≡◌, Bool, true, Option, none, some}
use codelab_auth_service.JwtPayload.{JwtPayload, token_type_value}

pub record Jwt : Type 1 where
  -- The dictionary of the claims.
  pub Claims : Type 0
  -- `payload.model_dump()`
  pub dump : JwtPayload → Claims
  -- `payload.get("type")`
  pub type_of : Claims → Option String
  -- `AccessTokenPayload(**payload)`, `RefreshTokenPayload(**payload)`; `none` where it raises.
  pub load : Claims → Option JwtPayload
  -- `jwt.encode(…)` with the private key, RS256 and the header `kid`.
  pub encode : Claims → String
  -- `jwt.decode(token, …, audience, issuer, options={"verify_signature": v, "verify_exp": v})` at a
  -- time of the clock; `none` where it raises a JWTError.
  pub decode : (verify : Bool) (now : ℕ) (audience issuer token : String) → Option Claims

pub record IsLawful (jwt : Jwt) : Type 0 where
  pub type_of-dump : (p : JwtPayload) → jwt.type_of (jwt.dump p) ≡ some (token_type_value p.type)
  pub load-dump : (p : JwtPayload) → jwt.load (jwt.dump p) ≡ some p
  -- A token of the service's key is read back from `nbf` to `exp`, and refused after `exp`.
  pub decode-encode :
      (p : JwtPayload) (now : ℕ)
      → p.nbf ≤ now
      → now ≤ p.exp
      → jwt.decode true now p.aud p.iss (jwt.encode (jwt.dump p)) ≡ some (jwt.dump p)
  pub decode_expired :
      (p : JwtPayload) (now : ℕ) (audience issuer : String)
      → p.exp < now
      → jwt.decode true now audience issuer (jwt.encode (jwt.dump p)) ≡ none
  pub decode_early :
      (p : JwtPayload) (now : ℕ) (audience issuer : String)
      → now < p.nbf
      → jwt.decode true now audience issuer (jwt.encode (jwt.dump p)) ≡ none
