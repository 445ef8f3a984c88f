-- ===== src/SessionsEndpoint/Tests.antt =====
-- The theorem on the sessions endpoint at concrete data.
use codelab_auth_service.Common.{ℕ, ◌+◌}
use codelab_auth_service.AuthService.Examples.{payload}
use codelab_auth_service.JwtPayload.{JwtPayload, TokenType}

abbrev access : JwtPayload
access = record (payload "t") { type = TokenType.access }

abbrev ticks : ℕ → ℕ
ticks i = 100 + i
