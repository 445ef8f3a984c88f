-- ===== src/RefreshTokenService/Grouping.antt =====
-- The loops of `get_user_sessions` and of `SessionService.list_user_sessions`: a dict from session
-- identifiers to the latest token, in insertion order.
use codelab_auth_service.Common.{
  String, Option, none, some, List, [], ◌∷◌, ltb, ◌==◌, if◌then◌else◌,
}
use codelab_auth_service.RefreshToken.{RefreshToken, Table}

abbrev pub SessionsMap : Type 0
SessionsMap = List (String × RefreshToken)

-- `sessions_map.get(key)`
unfoldable pub lookup_session : String → SessionsMap → Option RefreshToken
lookup_session k [] = none
lookup_session k ((j, t) ∷ m) = if k == j then some t else lookup_session k m

-- `sessions_map[key] = token`: a new key goes to the end, and an old one keeps its place.
unfoldable pub set_session : String → RefreshToken → SessionsMap → SessionsMap
set_session k t [] = (k, t) ∷ []
set_session k t ((j, u) ∷ m) = if k == j then (j, t) ∷ m else (j, u) ∷ set_session k t m

-- The body of the loop.
unfoldable pub keep_latest : RefreshToken → SessionsMap → SessionsMap
keep_latest t m = elim (lookup_session t.session_id m) [
  | none ↦ set_session t.session_id t m
  | some u ↦ if ltb u.created_at t.created_at then set_session t.session_id t m else m
]

unfoldable pub group_from : SessionsMap → Table → SessionsMap
group_from m [] = m
group_from m (t ∷ ts) = group_from (keep_latest t m) ts

unfoldable pub values : SessionsMap → Table
values [] = []
values ((k, t) ∷ m) = t ∷ values m
