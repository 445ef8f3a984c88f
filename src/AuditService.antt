-- ===== src/AuditService.antt =====
-- app/services/audit_service.py: the methods of `class AuditService` that the token endpoint does
-- not call; Database has `log_event` and the others.
use codelab_auth_service.Common.{
  ℕ, String, ◌<>◌, Bool, true, false, not, ◌&&◌, ◌||◌, Option, none, some, List, [], ◌∷◌, ◌==◌,
  if◌then◌else◌,
}
use codelab_auth_service.Database.{AuditLog, Database, log_event}
use codelab_auth_service.Text.Chars.{codes, lower_codes, same_codes, within_codes}

-- The dictionary of an event's details.
abbrev pub Details : Type 0
Details = List (String × Option String)

module _ (id : String) (now : ℕ) where
  unfoldable pub log_token_revoke :
      (user_id client_id : String) (ip_address user_agent : Option String)
      → Database
      → Option AuditLog × Database
  log_token_revoke user_id client_id ip_address user_agent = log_event record {
    id = id;
    user_id = some user_id;
    client_id = some client_id;
    event_type = "token_revoke";
    event_data = none;
    ip_address = ip_address;
    user_agent = user_agent;
    success = true;
    error_message = none;
    created_at = now;
  }

  unfoldable pub log_security_incident :
      (incident_type : String) (user_id client_id : Option String) (event_data : Option Details)
      (ip_address user_agent : Option String)
      → Database
      → Option AuditLog × Database
  log_security_incident incident_type user_id client_id event_data ip_address user_agent =
      log_event record {
        id = id;
        user_id = user_id;
        client_id = client_id;
        event_type = "security_incident_" <> incident_type;
        event_data = event_data;
        ip_address = ip_address;
        user_agent = user_agent;
        success = false;
        error_message = some ("Security incident: " <> incident_type);
        created_at = now;
      }

  -- An event of a user, or of nobody, with no client and no address.
  plain_event :
      (event_type : String) (success : Bool) (user_id : Option String) (event_data : Option Details)
      (error_message : Option String)
      → Database
      → Option AuditLog × Database
  plain_event event_type success user_id event_data error_message = log_event record {
    id = id;
    user_id = user_id;
    client_id = none;
    event_type = event_type;
    event_data = event_data;
    ip_address = none;
    user_agent = none;
    success = success;
    error_message = error_message;
    created_at = now;
  }

  unfoldable pub log_email_sent :
      (user_id template_name recipient : String) → Database → Option AuditLog × Database
  unfolding plain_event
  log_email_sent user_id template_name recipient =
      plain_event "email_sent" true (some user_id)
        (some (("template", some template_name) ∷ ("recipient", some recipient) ∷ [])) none

  -- The number of retries stands in the details in decimal: every caller leaves it 0.
  unfoldable pub log_email_failed :
      (user_id : Option String) (template_name error : String)
      → Database
      → Option AuditLog × Database
  unfolding plain_event
  log_email_failed user_id template_name error =
      plain_event "email_failed" false user_id
        (some (("template", some template_name) ∷ ("retry_count", some "0") ∷ [])) (some error)

  unfoldable pub log_email_confirmation_token_generated :
      String → Database → Option AuditLog × Database
  unfolding plain_event
  log_email_confirmation_token_generated user_id =
      plain_event "email_confirmation_token_generated" true (some user_id) none none

  unfoldable pub log_email_confirmation_success : String → Database → Option AuditLog × Database
  unfolding plain_event
  log_email_confirmation_success user_id =
      plain_event "email_confirmed" true (some user_id) none none

  unfoldable pub log_email_confirmation_failed : String → Database → Option AuditLog × Database
  unfolding plain_event
  log_email_confirmation_failed reason =
      plain_event "email_confirmation_failed" false none none (some reason)

-- `text.endswith(word)`, on the code points.
ends_codes : List ℕ → List ℕ → Bool
unfolding same_codes
ends_codes ws [] = same_codes ws []
ends_codes ws (x ∷ xs) = same_codes ws (x ∷ xs) || ends_codes ws xs

-- `not event_type.endswith("_failed") and "failed" not in event_type.lower()`
unfoldable pub looks_successful : String → Bool
unfolding ends_codes codes lower_codes within_codes
looks_successful event_type =
    not (ends_codes (codes "_failed") (codes event_type))
    && not (within_codes (codes "failed") (lower_codes event_type))

-- `details.get(key)`
get_detail : String → Details → Option String
get_detail key [] = none
get_detail key ((k, v) ∷ rest) = let rest' = get_detail key rest in if k == key then v else rest'

abbrev or_looks : Option Bool → String → Bool
or_looks none event_type = looks_successful event_type
or_looks (some success) event_type = success

-- `details.get(key) if details else None`
detail : String → Option Details → Option String
unfolding get_detail
detail key none = none
detail key (some details) = get_detail key details

unfoldable pub log :
    (id : String) (now : ℕ) (event_type : String) (user_id : Option String) (success : Option Bool)
    (details : Option Details)
    → Database
    → Option AuditLog × Database
unfolding detail looks_successful
log id now event_type user_id success details = log_event record {
  id = id;
  user_id = user_id;
  client_id = none;
  event_type = event_type;
  event_data = details;
  ip_address = detail "client_ip" details;
  user_agent = detail "user_agent" details;
  success = or_looks success event_type;
  error_message = detail "failure_reason" details;
  created_at = now;
}
