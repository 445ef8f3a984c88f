-- ===== src/SessionsEndpoint/Owner.antt =====
-- A user revokes sessions of the user alone.
use codelab_auth_service.Jwt.Interface.{Jwt}
use codelab_auth_service.JwtPayload.{JwtPayload}
use codelab_auth_service.Settings.{Settings}
