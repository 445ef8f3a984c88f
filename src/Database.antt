-- ===== src/Database.antt =====
-- The tables behind a database session, app/models/audit_log.py, and app/services/audit_service.py
-- as far as the token endpoint calls it.
pub mod Frames
use codelab_auth_service.Common.{
  ℕ, String, Bool, true, false, ◌||◌, Option, none, some, List, [], ◌∷◌, ◌++◌, truthy, ◌==◌,
  if◌then◌else◌,
}
use codelab_auth_service.OauthClient.{ClientTable}
use codelab_auth_service.ConfirmationToken.{ConfirmationTable}
use codelab_auth_service.PasswordReset.{ResetTable}
use codelab_auth_service.RefreshToken.{Table}
use codelab_auth_service.User.{UserTable}

-- `event_data` lists the entries of the dictionary.
pub record AuditLog : Type 0 where
  pub id : String
  pub user_id : Option String
  pub client_id : Option String
  pub event_type : String
  pub event_data : Option (List (String × Option String))
  pub ip_address : Option String
  pub user_agent : Option String
  pub success : Bool
  pub error_message : Option String
  pub created_at : ℕ

pub record Database : Type 0 where
  pub clients : ClientTable
  pub users : UserTable
  pub tokens : Table
  pub resets : ResetTable
  pub confirmations : ConfirmationTable
  pub audits : List AuditLog

-- A call that reads and writes one of the tables.
module _ {A : Type 0} where
  abbrev pub on_clients : (ClientTable → Option A × ClientTable) → Database → Option A × Database
  on_clients m db = let (reply, rows) = m db.clients in (reply, record db { clients = rows })

  abbrev pub on_users : (UserTable → Option A × UserTable) → Database → Option A × Database
  on_users m db = let (reply, rows) = m db.users in (reply, record db { users = rows })

  abbrev pub on_tokens : (Table → Option A × Table) → Database → Option A × Database
  on_tokens m db = let (reply, rows) = m db.tokens in (reply, record db { tokens = rows })

  abbrev pub on_resets : (ResetTable → Option A × ResetTable) → Database → Option A × Database
  on_resets m db = let (reply, rows) = m db.resets in (reply, record db { resets = rows })

  abbrev pub on_confirmations :
      (ConfirmationTable → Option A × ConfirmationTable) → Database → Option A × Database
  on_confirmations m db =
      let (reply, rows) = m db.confirmations in (reply, record db { confirmations = rows })

unfoldable pub logged : String → List AuditLog → Bool
logged id [] = false
logged id (a ∷ rest) = id == a.id || logged id rest

-- `log_event`: the commit raises if the drawn primary key is taken.
unfoldable pub log_event : AuditLog → Database → Option AuditLog × Database
log_event entry db =
    if logged entry.id db.audits
    then (none, db)
    else (some entry, record db { audits = db.audits ++ entry ∷ [] })

unfoldable pub log_login_success :
    (user_id client_id : String) (ip_address user_agent scope : Option String) (id : String)
    (now : ℕ)
    → Database
    → Option AuditLog × Database
unfolding log_event
log_login_success user_id client_id ip_address user_agent scope id now = log_event record {
  id = id;
  user_id = some user_id;
  client_id = some client_id;
  event_type = "login_success";
  event_data = if truthy scope then some (("scope", scope) ∷ []) else none;
  ip_address = ip_address;
  user_agent = user_agent;
  success = true;
  error_message = none;
  created_at = now;
}

pub log_login_failed :
    (username client_id : String) (ip_address user_agent reason : Option String) (id : String)
    (now : ℕ)
    → Database
    → Option AuditLog × Database
unfolding log_event
log_login_failed username client_id ip_address user_agent reason id now = log_event record {
  id = id;
  user_id = none;
  client_id = some client_id;
  event_type = "login_failed";
  event_data = some (("username", some username) ∷ []);
  ip_address = ip_address;
  user_agent = user_agent;
  success = false;
  error_message = reason;
  created_at = now;
}

unfoldable pub log_token_refresh :
    (user_id client_id : String) (ip_address user_agent : Option String) (id : String) (now : ℕ)
    → Database
    → Option AuditLog × Database
unfolding log_event
log_token_refresh user_id client_id ip_address user_agent id now = log_event record {
  id = id;
  user_id = some user_id;
  client_id = some client_id;
  event_type = "token_refresh";
  event_data = none;
  ip_address = ip_address;
  user_agent = user_agent;
  success = true;
  error_message = none;
  created_at = now;
}
