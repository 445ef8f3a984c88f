-- ===== src/RefreshToken.antt =====
-- app/models/refresh_token.py: a row of the table `refresh_tokens`, and what the services do to
-- rows. A time is the number of microseconds since the epoch. The table is the list of its rows in
-- the order in which a query returns them.
pub mod Rows
pub mod Examples
use codelab_auth_service.Common.{
  ℕ, ◌+◌, String, Bool, true, false, not, ◌&&◌, ◌||◌, Option, none, some, List, [], ◌∷◌, ltb, ◌==◌,
  if◌then◌else◌,
}

pub record RefreshToken : Type 0 where
  pub id : String
  pub jti_hash : String
  pub user_id : String
  pub client_id : String
  pub scope : String
  pub expires_at : ℕ
  pub revoked : Bool
  pub revoked_at : Option ℕ
  pub parent_jti_hash : Option String
  pub session_id : String
  pub last_used : Option ℕ
  pub last_rotated_at : Option ℕ
  pub ip_address : Option String
  pub user_agent : Option String
  pub created_at : ℕ

abbrev pub Table : Type 0
Table = List RefreshToken

-- The property `is_expired`, at the time `now`.
abbrev pub is_expired : ℕ → RefreshToken → Bool
is_expired now t = ltb t.expires_at now

abbrev pub is_valid : ℕ → RefreshToken → Bool
is_valid now t = not t.revoked && not (is_expired now t)

abbrev pub is_current : ℕ → RefreshToken → Bool
is_current now t = is_valid now t && (elim t.last_used [ none ↦ false | some _ ↦ true ])

-- `t.revoked = True; t.revoked_at = now`
abbrev pub revoke : ℕ → RefreshToken → RefreshToken
revoke now t = record t { revoked = true; revoked_at = some now }

-- `for t in tokens: t.revoked = True; t.revoked_at = datetime.now(…)` over the rows that meet a
-- condition. The clock is read once for each, so its readings are numbered.
unfoldable pub revoke_rows : (RefreshToken → Bool) → (ℕ → ℕ) → ℕ → Table → Table
revoke_rows p clock i [] = []
revoke_rows p clock i (t ∷ ts) =
    (if p t then revoke (clock i) t else t) ∷ revoke_rows p clock (if p t then i + 1 else i) ts

-- `db.delete(t)` for the rows that meet a condition.
unfoldable pub delete_rows : (RefreshToken → Bool) → Table → Table
delete_rows p [] = []
delete_rows p (t ∷ ts) = let rest = delete_rows p ts in if p t then rest else t ∷ rest

-- The unique columns: the primary key and `jti_hash`.
unfoldable pub collides : RefreshToken → Table → Bool
collides t [] = false
collides t (u ∷ us) = t.id == u.id || (t.jti_hash == u.jti_hash || collides t us)
