-- ===== src/SessionService.antt =====
-- app/services/session_service.py: `class SessionService`, on the table of refresh tokens. A method
-- takes the readings of the clock, and returns its result and the new table. The loggers are left
-- out.
pub mod History
pub mod Listing
pub mod Restriction
pub mod Revocation
mod Tests
use mathlib.Core.Option
use codelab_auth_service.Common.{
  ℕ, String, Bool, true, false, not, ◌&&◌, Option, none, some, List, [], ◌∷◌, length, select, first,
  ltb, ◌==◌, if◌then◌else◌,
}
use codelab_auth_service.RefreshToken.{RefreshToken, Table, revoke_rows}
use codelab_auth_service.RefreshTokenService.{SessionsMap, group_from, in_session, active_of}

pub record SessionSummary : Type 0 where
  pub session_id : String
  pub client_id : String
  pub created_at : ℕ
  pub last_used : Option ℕ
  pub ip_address : Option String
  pub user_agent : Option String
  pub expires_at : ℕ

abbrev pub summary_of : String → RefreshToken → SessionSummary
summary_of session_id t = record {
  session_id = session_id;
  client_id = t.client_id;
  created_at = t.created_at;
  last_used = t.last_used;
  ip_address = t.ip_address;
  user_agent = t.user_agent;
  expires_at = t.expires_at;
}

unfoldable pub summaries : SessionsMap → List SessionSummary
summaries [] = []
summaries ((k, t) ∷ m) = summary_of k t ∷ summaries m

-- `sorted(sessions, key=lambda x: x["created_at"], reverse=True)`: Python's sort is stable, so
-- sessions of one time keep their order.
unfoldable pub insert_by_created_at : SessionSummary → List SessionSummary → List SessionSummary
insert_by_created_at x [] = x ∷ []
insert_by_created_at x (y ∷ ys) =
    let rest = insert_by_created_at x ys in
    if ltb x.created_at y.created_at then y ∷ rest else x ∷ (y ∷ ys)

unfoldable pub sorted_by_created_at : List SessionSummary → List SessionSummary
sorted_by_created_at [] = []
sorted_by_created_at (x ∷ xs) = insert_by_created_at x (sorted_by_created_at xs)

pub list_user_sessions : String → Table → List SessionSummary
list_user_sessions user_id rows =
    sorted_by_created_at (summaries (group_from [] (select (active_of user_id) rows)))

pub record SessionInfo : Type 0 where
  pub session_id : String
  pub client_id : String
  pub scope : String
  pub created_at : ℕ
  pub last_used : Option ℕ
  pub last_rotated_at : Option ℕ
  pub ip_address : Option String
  pub user_agent : Option String
  pub expires_at : ℕ

abbrev pub info_of : RefreshToken → SessionInfo
info_of t = record {
  session_id = t.session_id;
  client_id = t.client_id;
  scope = t.scope;
  created_at = t.created_at;
  last_used = t.last_used;
  last_rotated_at = t.last_rotated_at;
  ip_address = t.ip_address;
  user_agent = t.user_agent;
  expires_at = t.expires_at;
}

pub get_session_info : String → String → Table → Option SessionInfo
get_session_info user_id session_id rows =
    Option.map info_of (first (select (in_session user_id session_id) rows))

pub revoke_session : (ℕ → ℕ) → String → String → Table → Bool × Table
revoke_session clock user_id session_id rows = elim (select (in_session user_id session_id) rows) [
  | [] ↦ (false, rows)
  | _ ∷ _ ↦ (true, revoke_rows (in_session user_id session_id) clock 0 rows)
]

-- `if except_session_id and token.session_id == except_session_id: continue`
abbrev pub excepted : Option String → RefreshToken → Bool
excepted none t = false
excepted (some s) t = not (s == "") && t.session_id == s

abbrev pub to_revoke : String → Option String → RefreshToken → Bool
to_revoke user_id except_session_id t = active_of user_id t && not (excepted except_session_id t)

pub revoke_all_sessions : ℕ → String → Option String → Table → ℕ × Table
revoke_all_sessions now user_id except_session_id rows = (
  length (select (to_revoke user_id except_session_id) rows),
  revoke_rows (to_revoke user_id except_session_id) (λ _. now) 0 rows,
)

pub get_active_sessions_count : String → Table → ℕ
unfolding list_user_sessions
get_active_sessions_count user_id rows = length (list_user_sessions user_id rows)
