-- ===== src/Handlers.antt =====
-- The state behind the handlers of app/api/v1, the Redis server and the database, and their calls.
pub mod Frames
use codelab_auth_service.Common.{ℕ, String, Option, none, some, [], ◌∷◌}
use codelab_auth_service.AuditService.{Details, log}
use codelab_auth_service.Commands.{◌>>=◌, pure}
use codelab_auth_service.Database.{Database}
use codelab_auth_service.Redis.Interface.{Redis}

-- What a handler answers: the status and the text of the message or of the `detail`.
pub record Reply : Type 0 where
  pub status_code : ℕ
  pub message : String

abbrev pub reply : ℕ → String → Reply
reply status_code message = record { status_code = status_code; message = message }

module _ (r : Redis) where
  abbrev pub State : Type 0
  State = r.State × Database

  -- A call of a service that works on the server and never raises.
  abbrev pub on_redis : {A : Type 0} → (r.State → A × r.State) → State → Option A × State
  on_redis m s = let (a, redis) = m (s.0) in (some a, (redis, s.1))

  abbrev pub on_db : {A : Type 0} → (Database → Option A × Database) → State → Option A × State
  on_db m s = let (answer, db) = m (s.1) in (answer, (s.0, db))

  -- `await audit_service.log(…)`, and then the answer.
  abbrev pub log_and_reply :
      (id : String) (now : ℕ) (event_type : String) (user_id : Option String) (details : Details)
      → Reply
      → State
      → Option Reply × State
  log_and_reply id now event_type user_id details answer =
      on_db (log id now event_type user_id none (some details)) >>= λ _. pure answer
