-- ===== src/RefreshToken/Examples.antt =====
-- A small table for concrete runs: two tokens of one user at one client, of which one is revoked,
-- and one of another user.
use codelab_auth_service.Common.{String, true, false, none, some, [], ◌∷◌, refl}
use codelab_auth_service.RefreshToken.{RefreshToken, Table, collides}
use codelab_auth_service.RefreshToken.Rows.{IsKeyed}

abbrev pub active_row : RefreshToken
active_row = record {
  id = "1";
  jti_hash = "a";
  user_id = "ann";
  client_id = "web";
  scope = "read";
  expires_at = 9000000;
  revoked = false;
  revoked_at = none;
  parent_jti_hash = none;
  session_id = "s1";
  last_used = some 10;
  last_rotated_at = some 10;
  ip_address = some "10.0.0.1";
  user_agent = none;
  created_at = 10;
}

abbrev pub used_row : RefreshToken
used_row = record active_row {
  id = "2";
  jti_hash = "b";
  revoked = true;
  revoked_at = some 20;
  session_id = "s2";
  created_at = 5;
}

abbrev pub other_row : RefreshToken
other_row = record active_row {
  id = "3";
  jti_hash = "c";
  user_id = "bob";
  session_id = "s3";
  expires_at = 30;
}

abbrev pub rows : Table
rows = active_row ∷ used_row ∷ other_row ∷ []

pub rows-IsKeyed : IsKeyed rows
unfolding collides
rows-IsKeyed = (refl, (refl, (refl, tt)))

-- A hash function for the runs.
abbrev pub same_text : String → String
same_text s = s
