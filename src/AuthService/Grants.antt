-- ===== src/AuthService/Grants.antt =====
-- To whom the grants of the authentication service give tokens.
use codelab_auth_service.Common.{
  ℕ, String, ◌≡◌, refl, sym, ◌∙◌, ap, subst, Bool, inl, inr, true, false, not, Option, none, some,
  [], ◌∷◌, select, ◌==◌, eq_iff, if◌then◌else◌,
}
use codelab_auth_service.AuthService.{
  TokenRequest, Granted, if_found, text_of, issue, validate_password_grant, validate_refresh_grant,
  grant_scope, grant_password, authenticate_password_grant, grant_user, grant_payload,
  grant_refresh, authenticate_refresh_grant,
}
use codelab_auth_service.AuthService.Issued.{IsIssued, issue-IsIssued}
use codelab_auth_service.Commands.{◌>>=◌, pure, >>=-inverse}
use codelab_auth_service.Database.{Database, on_clients, on_users}
use codelab_auth_service.Jwt.Interface.{Jwt}
use codelab_auth_service.JwtPayload.{JwtPayload}
use codelab_auth_service.OauthClient.{GrantType, OauthClient, ClientTable}
use codelab_auth_service.OauthClientService.{validate_client, validate_grant_type, validate_scope}
use codelab_auth_service.OauthClientService.Checks.{has_id, validate_client_iff}
use codelab_auth_service.Settings.{Settings}
use codelab_auth_service.TokenService.{timestamp, validate_refresh_token}
use codelab_auth_service.User.{User, UserTable}
use codelab_auth_service.UserService.{authenticate, get_by_id}

holds_of_negated : (b : Bool) → not b ≡ false → b ≡ true
holds_of_negated true e = refl
holds_of_negated false e = cc e

module _ {A : Type 0} where
  value_of : Option (Option A) → A → A
  value_of (some (some a)) default = a
  value_of _ default = default

  returned : (x a : A) (db db' : Database) → pure (some x) db ≡ (some (some a), db') → a ≡ x
  unfolding value_of
  returned x a db db' e = sym (ap (λ (y : Option (Option A) × Database). value_of y.0 x) e)

  passed :
      (b : Bool) (m : Database → Option (Option A) × Database) (a : A) (db db' : Database)
      → (if b then pure none else m) db ≡ (some (some a), db')
      → (b ≡ false) × (m db ≡ (some (some a), db'))
  passed false m a db db' e = (refl, e)
  passed true m a db db' e = cc (ap (λ (x : Option (Option A) × Database). x.0) e)

  module _ {B : Type 0} where
    found_one :
        (found : Option B) (next : B → Database → Option (Option A) × Database) (a : A)
        (db db' : Database)
        → if_found found next db ≡ (some (some a), db')
        → (b : B) × (found ≡ some b) × (next b db ≡ (some (some a), db'))
    found_one none next a db db' e = cc (ap (λ (x : Option (Option A) × Database). x.0) e)
    found_one (some b) next a db db' e = (b, refl, e)

module _ (jwt : Jwt) (settings : Settings) (verify : String → Option String → Option Bool) where
  -- The client of a request that has shown no secret.
  abbrev pub IsPublicClient : String → ClientTable → OauthClient → Type 0
  IsPublicClient client_id clients c =
      (select (has_id client_id) clients ≡ c ∷ [])
      × (c.is_active ≡ true)
      × (c.is_confidential ≡ false)

  validated :
      (client_id : String) (clients : ClientTable) (c : OauthClient)
      → (validate_client verify client_id none clients).0 ≡ some (some c)
      → IsPublicClient client_id clients c
  validated client_id clients c e =
      let (one, active, shows) = (validate_client_iff verify client_id none clients c).0 e in
      elim shows [ inl public ↦ (one, active, public) | inr (s, shown, _, _) ↦ cc shown ]

  grant_scope-granted :
      (q : TokenRequest) (client : OauthClient) (clock : ℕ → ℕ) (jti : ℕ → String) (user : User)
      (g : Granted) (db db' : Database)
      → grant_scope jwt settings verify q client clock jti user db ≡ (some (some g), db')
      → ((validate_scope client q.scope).0 ≡ true)
        × (g ≡ issue jwt settings verify user client (validate_scope client q.scope).1 clock jti)
  unfolding grant_scope
  grant_scope-granted q client clock jti user g db db' e =
      let tokens =
        issue jwt settings verify user client (validate_scope client q.scope).1 clock jti in
      let (ok, issued) =
        passed (not (validate_scope client q.scope).0) (pure (some tokens)) g db db' e in
      (holds_of_negated (validate_scope client q.scope).0 ok, returned tokens g db db' issued)

  -- What `grant_password` has seen of a client to which it grants.
  abbrev pub IsPasswordGrant :
      TokenRequest → (ℕ → ℕ → ℕ) → (ℕ → String) → UserTable → Granted → OauthClient → User → Type 0
  IsPasswordGrant q clock jti users g client user =
      (validate_grant_type client GrantType.password ≡ true)
      × ((authenticate settings (λ plain hashed. verify plain (some hashed)) (clock 0)
            (text_of q.username) (text_of q.password) users).0
          ≡ some (some user))
      × ((validate_scope client q.scope).0 ≡ true)
      × (g ≡ issue jwt settings verify user client (validate_scope client q.scope).1 (clock 1) jti)

  grant_password-granted :
      (q : TokenRequest) (clock : ℕ → ℕ → ℕ) (jti : ℕ → String) (client : OauthClient)
      (db db' : Database) (g : Granted)
      → grant_password jwt settings verify q clock jti client db ≡ (some (some g), db')
      → (user : User) × IsPasswordGrant q clock jti db.users g client user
  unfolding grant_password
  grant_password-granted q clock jti client db db' g e =
      let enter = on_users (
        authenticate settings (λ plain hashed. verify plain (some hashed)) (clock 0)
          (text_of q.username) (text_of q.password)) in
      let more = grant_scope jwt settings verify q client (clock 1) jti in
      let (allowed, e1) =
        passed (not (validate_grant_type client GrantType.password))
          (enter >>= λ user. if_found user more) g db db' e in
      let (found, db1, replied, e2) =
        >>=-inverse enter (λ user. if_found user more) db db' (some g) e1 in
      let (user, is, e3) = found_one found more g db1 db' e2 in
      let (scope_ok, issued) = grant_scope-granted q client (clock 1) jti user g db1 db' e3 in
      (
        user,
        (
          holds_of_negated (validate_grant_type client GrantType.password) allowed,
          ap (λ (x : Option (Option User) × Database). x.0) replied ∙ ap some is,
          scope_ok,
          issued,
        ),
      )

  -- A password grant that gives tokens: the client is the one row of its identifier, active,
  -- public (a confidential client never gets a token), and allowed this grant; the user is the one
  -- that `authenticate` returns; the scope is valid, and the tokens are issued for exactly these.
  pub password_granted :
      (q : TokenRequest) (clock : ℕ → ℕ → ℕ) (jti : ℕ → String) (db : Database) (g : Granted)
      → (authenticate_password_grant jwt settings verify q clock jti db).0 ≡ some (some g)
      → (client : OauthClient) × (user : User) × IsPublicClient q.client_id db.clients client
        × IsPasswordGrant q clock jti db.users g client user
  unfolding authenticate_password_grant
  password_granted q clock jti db g e =
      let db' = (authenticate_password_grant jwt settings verify q clock jti db).1 in
      let validate = on_clients (validate_client verify q.client_id none) in
      let next = grant_password jwt settings verify q clock jti in
      let (_, e1) =
        passed (not (validate_password_grant q)) (validate >>= λ client. if_found client next) g db
          db' (ap (λ (x : Option (Option Granted)). (x, db')) e) in
      let (found, db1, replied, e2) =
        >>=-inverse validate (λ client. if_found client next) db db' (some g) e1 in
      let (client, is, e3) = found_one found next g db1 db' e2 in
      let (user, granted) = grant_password-granted q clock jti client db1 db' g e3 in
      (
        client,
        user,
        validated q.client_id db.clients client
            (ap (λ (x : Option (Option OauthClient) × Database). x.0) replied ∙ ap some is),
        subst (λ (users : UserTable). IsPasswordGrant q clock jti users g client user)
            (sym (ap (λ (x : Option (Option OauthClient) × Database). x.1.users) replied)) granted,
      )

  -- What `grant_refresh` has seen of a client to which it grants.
  abbrev pub IsRefreshGrant :
      TokenRequest
      → (ℕ → ℕ → ℕ)
      → (ℕ → String)
      → UserTable
      → Granted
      → OauthClient
      → User
      → JwtPayload
      → Type 0
  IsRefreshGrant q clock jti users g client user payload =
      (validate_grant_type client GrantType.refresh_token ≡ true)
      × (validate_refresh_token jwt settings (timestamp (clock 0 0)) (text_of q.refresh_token)
          ≡ some payload)
      × (payload.client_id ≡ q.client_id)
      × ((get_by_id payload.sub users).0 ≡ some (some user))
      × (user.is_active ≡ true)
      × IsIssued jwt settings g user client payload.scope (clock 1) jti

  grant_user-granted :
      (payload : JwtPayload) (client : OauthClient) (clock : ℕ → ℕ) (jti : ℕ → String) (user : User)
      (db db' : Database) (g : Granted)
      → grant_user jwt settings verify payload client clock jti user db ≡ (some (some g), db')
      → (user.is_active ≡ true) × IsIssued jwt settings g user client payload.scope clock jti
  unfolding grant_user
  grant_user-granted payload client clock jti user db db' g e =
      let tokens = issue jwt settings verify user client payload.scope clock jti in
      let (active, issued) = passed (not user.is_active) (pure (some tokens)) g db db' e in
      (
        holds_of_negated user.is_active active,
        subst (λ (x : Granted). IsIssued jwt settings x user client payload.scope clock jti)
            (sym (returned tokens g db db' issued))
            (issue-IsIssued jwt settings verify user client payload.scope clock jti),
      )

  grant_refresh-granted :
      (q : TokenRequest) (clock : ℕ → ℕ → ℕ) (jti : ℕ → String) (client : OauthClient)
      (db db' : Database) (g : Granted)
      → grant_refresh jwt settings verify q clock jti client db ≡ (some (some g), db')
      → (user : User) × (payload : JwtPayload) × IsRefreshGrant q clock jti db.users g client user
          payload
  unfolding grant_refresh grant_payload
  grant_refresh-granted q clock jti client db db' g e =
      let read =
        validate_refresh_token jwt settings (timestamp (clock 0 0)) (text_of q.refresh_token) in
      let next = grant_payload jwt settings verify q client (clock 1) jti in
      let (allowed, e1) =
        passed (not (validate_grant_type client GrantType.refresh_token)) (if_found read next) g db
          db' e in
      let (payload, is, e2) = found_one read next g db db' e1 in
      let lookup = on_users (get_by_id payload.sub) in
      let more = grant_user jwt settings verify payload client (clock 1) jti in
      let (same, e3) =
        passed (not (payload.client_id == q.client_id)) (lookup >>= λ user. if_found user more) g db
          db' e2 in
      let (found, db1, replied, e4) =
        >>=-inverse lookup (λ user. if_found user more) db db' (some g) e3 in
      let (user, is', e5) = found_one found more g db1 db' e4 in
      let (active, issued) = grant_user-granted payload client (clock 1) jti user db1 db' g e5 in
      (
        user,
        payload,
        (
          holds_of_negated (validate_grant_type client GrantType.refresh_token) allowed,
          is,
          (eq_iff payload.client_id q.client_id).0
              (holds_of_negated (payload.client_id == q.client_id) same),
          ap (λ (x : Option (Option User) × Database). x.0) replied ∙ ap some is',
          active,
          issued,
        ),
      )

  -- A refresh grant that gives tokens: the client is the one row of its identifier, active, public
  -- (a confidential client never gets a token), and allowed this grant; the refresh token is valid
  -- and was issued to this client; its user is there and active; the claims of the two new tokens
  -- name this user and client, the scope of the old token and the times of the client's lifetimes,
  -- and the response tells this scope and the lifetime of the access token.
  pub refresh_granted :
      (q : TokenRequest) (clock : ℕ → ℕ → ℕ) (jti : ℕ → String) (db : Database) (g : Granted)
      → (authenticate_refresh_grant jwt settings verify q clock jti db).0 ≡ some (some g)
      → (client : OauthClient) × (user : User) × (payload : JwtPayload) × IsPublicClient q.client_id
          db.clients client
        × IsRefreshGrant q clock jti db.users g client user payload
  unfolding authenticate_refresh_grant
  refresh_granted q clock jti db g e =
      let db' = (authenticate_refresh_grant jwt settings verify q clock jti db).1 in
      let validate = on_clients (validate_client verify q.client_id none) in
      let next = grant_refresh jwt settings verify q clock jti in
      let (_, e1) =
        passed (not (validate_refresh_grant q)) (validate >>= λ client. if_found client next) g db
          db' (ap (λ (x : Option (Option Granted)). (x, db')) e) in
      let (found, db1, replied, e2) =
        >>=-inverse validate (λ client. if_found client next) db db' (some g) e1 in
      let (client, is, e3) = found_one found next g db1 db' e2 in
      let (user, payload, granted) = grant_refresh-granted q clock jti client db1 db' g e3 in
      (
        client,
        user,
        payload,
        validated q.client_id db.clients client
            (ap (λ (x : Option (Option OauthClient) × Database). x.0) replied ∙ ap some is),
        subst (λ (users : UserTable). IsRefreshGrant q clock jti users g client user payload)
            (sym (ap (λ (x : Option (Option OauthClient) × Database). x.1.users) replied)) granted,
      )
