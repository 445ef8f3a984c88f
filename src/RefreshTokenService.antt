-- ===== src/RefreshTokenService.antt =====
-- app/services/refresh_token_service.py: `class RefreshTokenService`. A method takes the readings of
-- the clock and the values that it draws, and returns its result and the new table; the result is
-- `none` where the method raises. The loggers are left out.
mod Grouping
pub mod Validation
pub mod Reuse
pub mod Safety
pub mod Cleanup
pub mod Latest
mod Tests
unfoldable pub use Grouping.*
use mathlib.Core.Option
use codelab_auth_service.Common.{
  ℕ, ◌+◌, ◌-◌, ◌*◌, String, Bool, true, false, not, ◌&&◌, Option, none, some, List, [], ◌∷◌, ◌++◌,
  length, select, scalar_one_or_none, first, truthy, ltb, ◌==◌, if◌then◌else◌,
}
use codelab_auth_service.Commands.{◌>>=◌, pure}
use codelab_auth_service.JwtPayload.{JwtPayload}
use codelab_auth_service.RefreshToken.{
  RefreshToken, Table, is_expired, revoke_rows, delete_rows, collides,
}

-- `sha256` of hashlib is a parameter: app/utils/crypto.py, `hash_token_jti`
abbrev pub hash_token_jti : (String → String) → String → String
hash_token_jti sha256 jti = sha256 jti

abbrev pub second : ℕ
second = 1000000

abbrev pub day : ℕ
day = 86400 * second

-- `hash_token_jti(parent_jti) if parent_jti else None`
abbrev pub hash_if_set : (String → String) → Option String → Option String
hash_if_set sha256 none = none
hash_if_set sha256 (some jti) = if jti == "" then none else some (hash_token_jti sha256 jti)

-- `if not session_id: session_id = str(uuid.uuid4())`
abbrev pub session_or : Option String → String → String
session_or none uuid = uuid
session_or (some s) uuid = if s == "" then uuid else s

module _ (sha256 : String → String) where
  -- The row that `save_refresh_token` makes: `uuid` is the drawn session identifier, `id` the drawn
  -- primary key, and the clock is read for `last_used`, `last_rotated_at` and `created_at`.
  abbrev pub new_token :
      JwtPayload
      → Option String
      → Option String
      → Option String
      → Option String
      → String
      → String
      → (ℕ → ℕ)
      → RefreshToken
  new_token payload parent_jti session_id ip_address user_agent uuid id clock = record {
    id = id;
    jti_hash = hash_token_jti sha256 payload.jti;
    user_id = payload.sub;
    client_id = payload.client_id;
    scope = payload.scope;
    expires_at = payload.exp * second;
    revoked = false;
    revoked_at = none;
    parent_jti_hash = hash_if_set sha256 parent_jti;
    session_id = session_or session_id uuid;
    last_used = some (clock 0);
    last_rotated_at = some (clock 1);
    ip_address = ip_address;
    user_agent = user_agent;
    created_at = clock 2;
  }

-- `db.add(t); await db.commit()`: the commit raises on a value that a unique column holds already.
unfoldable pub insert : RefreshToken → Table → Option RefreshToken × Table
insert t rows = if collides t rows then (none, rows) else (some t, rows ++ (t ∷ []))

-- The conditions of the queries.
abbrev pub in_chain : RefreshToken → RefreshToken → Bool
in_chain t u = u.user_id == t.user_id && (u.client_id == t.client_id && not u.revoked)

abbrev pub in_session : String → String → RefreshToken → Bool
in_session user_id session_id u =
    u.user_id == user_id && (u.session_id == session_id && not u.revoked)

abbrev pub active_of : String → RefreshToken → Bool
active_of user_id u = u.user_id == user_id && not u.revoked

-- The row that an object of the session stands for.
abbrev pub same_row : RefreshToken → RefreshToken → Bool
same_row t u = u.id == t.id

-- `revoke_token_chain`. The query is made after the token itself has been flushed as revoked.
unfoldable pub revoke_token_chain : (ℕ → ℕ) → RefreshToken → Table → Unit {0} × Table
revoke_token_chain clock t rows =
    let flushed = revoke_rows (same_row t) (λ _. clock 0) 0 rows in
    (tt, revoke_rows (in_chain t) (λ i. clock (i + 1)) 0 flushed)

module _ (sha256 : String → String) where
  unfoldable pub save_refresh_token :
      JwtPayload
      → Option String
      → Option String
      → Option String
      → Option String
      → String
      → String
      → (ℕ → ℕ)
      → Table
      → Option RefreshToken × Table
  unfolding insert
  save_refresh_token payload parent_jti session_id ip_address user_agent uuid id clock =
      insert (new_token sha256 payload parent_jti session_id ip_address user_agent uuid id clock)

  unfoldable pub get_by_jti : String → Table → Option (Option RefreshToken) × Table
  get_by_jti jti rows =
      (scalar_one_or_none (select (λ t. t.jti_hash == hash_token_jti sha256 jti) rows), rows)

  -- What `validate_refresh_token` does with the row that it has found.
  unfoldable pub judge :
      (ℕ → ℕ) → Option RefreshToken → Table → Option (Bool × Option String) × Table
  judge clock none rows = (some (false, some "Refresh token not found"), rows)
  judge clock (some t) rows =
      if t.revoked
      then (
        some (false, some "Refresh token has been revoked (reuse detected)"),
        (revoke_token_chain clock t rows).1,
      )
      else if is_expired (clock 0) t
      then (some (false, some "Refresh token has expired"), rows)
      else (some (true, none), rows)

  unfoldable pub validate_refresh_token :
      (ℕ → ℕ) → String → Table → Option (Bool × Option String) × Table
  unfolding get_by_jti judge
  validate_refresh_token clock jti = do token ← get_by_jti jti; judge clock token

  -- `token.revoked = True` and the commit, in `revoke_token`.
  unfoldable pub revoke_found : ℕ → Option RefreshToken → Table → Option Bool × Table
  revoke_found now none rows = (some false, rows)
  revoke_found now (some t) rows = (some true, revoke_rows (same_row t) (λ _. now) 0 rows)

  unfoldable pub revoke_token : ℕ → String → Table → Option Bool × Table
  unfolding get_by_jti revoke_found
  revoke_token now jti = do token ← get_by_jti jti; revoke_found now token

pub cleanup_expired_tokens : ℕ → ℕ → Table → ℕ × Table
cleanup_expired_tokens now days_to_keep rows =
    let old = λ (t : RefreshToken). ltb t.expires_at (now - days_to_keep * day) in
    (length (select old rows), delete_rows old rows)

pub revoke_session : (ℕ → ℕ) → String → String → Table → Bool × Table
revoke_session clock user_id session_id rows = (
  ltb 0 (length (select (in_session user_id session_id) rows)),
  revoke_rows (in_session user_id session_id) clock 0 rows,
)

unfoldable pub get_user_sessions : String → Table → Table
get_user_sessions user_id rows = values (group_from [] (select (active_of user_id) rows))

pub record SessionMetadata : Type 0 where
  pub session_id : String
  pub client_id : String
  pub created_at : ℕ
  pub last_used : Option ℕ
  pub last_rotated_at : Option ℕ
  pub ip_address : Option String
  pub user_agent : Option String
  pub expires_at : ℕ

abbrev pub metadata_of : RefreshToken → SessionMetadata
metadata_of t = record {
  session_id = t.session_id;
  client_id = t.client_id;
  created_at = t.created_at;
  last_used = t.last_used;
  last_rotated_at = t.last_rotated_at;
  ip_address = t.ip_address;
  user_agent = t.user_agent;
  expires_at = t.expires_at;
}

pub get_session_metadata : String → String → Table → Option SessionMetadata
get_session_metadata user_id session_id rows =
    Option.map metadata_of (first (select (in_session user_id session_id) rows))
