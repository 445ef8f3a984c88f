-- ===== src/Database/Frames.antt =====
-- What the audit service leaves as it is.
use codelab_auth_service.Common.{ℕ, String, ◌≡◌, refl, Bool-cases, inl, inr, Option}
use codelab_auth_service.Database.{Database, AuditLog, log_event, logged, log_token_refresh}

pub log_event-tokens :
    (entry : AuditLog) (db : Database) → (log_event entry db).1.tokens ≡ db.tokens
unfolding log_event
log_event-tokens entry db = elim (Bool-cases (logged entry.id db.audits)) [
  | inl taken ↦ rw taken refl
  | inr free ↦ rw free refl
]

pub log_token_refresh-tokens :
    (user_id client_id : String) (ip_address user_agent : Option String) (id : String) (now : ℕ)
    (db : Database)
    → (log_token_refresh user_id client_id ip_address user_agent id now db).1.tokens ≡ db.tokens
unfolding log_token_refresh
log_token_refresh-tokens user_id client_id ip_address user_agent id now db = log_event-tokens _ db
