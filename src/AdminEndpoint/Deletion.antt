-- ===== src/AdminEndpoint/Deletion.antt =====
-- What the deletion of a user by an administrator does, and what it leaves.
use codelab_auth_service.Common.{
  ℕ, ◌+◌, ◌/◌, String, ◌≡◌, refl, sym, subst, Bool-cases, inl, inr, ap, ◌∙◌, Bool, true, false, not,
  ◌&&◌, ◌||◌, Option, none, some, List, [], ◌∷◌, arith, select, length, ltb, ◌==◌, eq_iff,
  if◌then◌else◌,
}
use codelab_auth_service.Commands.{>>=-reply, or_else}
use codelab_auth_service.Database.{Database, on_users}
use codelab_auth_service.EventPublisher.{Envelope, publish_user_deleted}
use codelab_auth_service.Redis.Store.{Store, IsLawful}
use codelab_auth_service.RefreshToken.{RefreshToken}
use codelab_auth_service.RefreshTokenService.{second}
use codelab_auth_service.TokenBlacklist.{
  blacklist_key, user_tokens_key, revoke_all_user_tokens, is_token_revoked,
}
use codelab_auth_service.TokenBlacklist.Batch.{live_count, all_live_revoked}
use codelab_auth_service.TokenService.{timestamp}
use codelab_auth_service.User.{User, UserTable}
use codelab_auth_service.UserService.{store_user, conflicts, write_row}
use codelab_auth_service.UserService.Keys.{IsUnique}
use codelab_auth_service.UserService.Lookups.{
  find, find-In, find-holds, get_by_id-find, find-write_row, find-write_row-other,
}
use codelab_auth_service.UserService.Named.{conflicts-In}
use codelab_auth_service.AdminEndpoint.Active.{any, count_active, list_active}
use codelab_auth_service.AdminEndpoint.{
  deleted, refused, is_live, token_list, with_deleted, State, publish, mark_deleted, on_database,
  revoke_listed, delete_known, delete_user,
}

conflicts-with_deleted :
    (at now : ℕ) (u : User) (users : UserTable)
    → conflicts (with_deleted at now u) users ≡ conflicts u users
unfolding conflicts
conflicts-with_deleted at now u [] = refl
conflicts-with_deleted at now u (v ∷ vs) = rw (conflicts-with_deleted at now u vs) refl

-- A written row, and the rows of other identifiers.
find-written :
    (u : User) (id user_id : String) (users : UserTable) (v : User)
    → u.id ≡ v.id
    → find (λ w. w.id == user_id) users ≡ some v
    → find (λ w. w.id == id) (write_row u users)
      ≡ (if id == user_id then some u else find (λ w. w.id == id) users)
find-written u id user_id users v same known =
    let named : v.id ≡ user_id =
      ground (arith, find-holds (λ w. w.id == user_id) users v known, eq_iff v.id user_id) in
    elim (Bool-cases (id == user_id)) [
      | inl one ↦
          let is : id ≡ user_id = ground (arith, eq_iff id user_id) in
          rw one (
            find-write_row u id users v (same ∙ named ∙ sym is)
              (subst (λ x. find (λ w. w.id == x) users ≡ some v) (sym is) known))
      | inr other ↦ rw other (
          find-write_row-other u id users
            (subst (λ x. (id == x) ≡ false) (sym (same ∙ named)) other))
    ]

module _ (r : Store) (lawful : IsLawful r) {E : Type 0} (xadd : Envelope → E → Option String × E)
    (isoformat : ℕ → String) (event_id : String) (clock : ℕ → ℕ) (user_id : String) where
  -- The event that a deletion publishes.
  abbrev pub event : User → E → Option String × E
  event u =
      publish_user_deleted xadd isoformat event_id (λ i. clock (4 + i)) user_id (some u.email)
        "admin_deletion" none (some (isoformat (clock 2))) none

  abbrev row_of : User → User
  row_of u = with_deleted (clock 2) (clock 3) u

  abbrev written :
      Option User
      → r.State
      → E
      → Database
      → Option User × State r xadd isoformat event_id clock user_id
  written user redis stream db = (user, (redis, stream, db))

  listed_runs :
      (u : User) (l : List (String × ℕ)) (redis : r.State) (stream : E) (db : Database) (n : ℕ)
      → (revoke_all_user_tokens r user_id "user_deleted" none (timestamp (clock 1)) l redis).0
        ≡ some n
      → revoke_listed r xadd isoformat event_id clock user_id u l (redis, stream, db)
        ≡ mark_deleted r xadd isoformat event_id clock user_id u n (
          (revoke_all_user_tokens r user_id "user_deleted" none (timestamp (clock 1)) l redis).1,
          stream,
          db,
        )
  unfolding revoke_listed
  listed_runs u [] redis stream db n e = unfold revoke_all_user_tokens in ground arith
  listed_runs u (t ∷ ts) redis stream db n e = ground arith

  marked :
      (u : User) (n : ℕ) (redis : r.State) (stream : E) (db : Database)
      → IsUnique db.users
      → find (λ v. v.id == user_id) db.users ≡ some u
      → mark_deleted r xadd isoformat event_id clock user_id u n (redis, stream, db)
        ≡ publish r xadd isoformat event_id clock user_id
            (row_of u)
            n
            (redis, stream, record db { users = write_row (row_of u) db.users })
  unfolding mark_deleted store_user
  marked u n redis stream db k known =
      let db' = record db { users = write_row (row_of u) db.users } in
      let free : conflicts (row_of u) db.users ≡ false =
        conflicts-with_deleted (clock 2) (clock 3) u db.users
        ∙ conflicts-In u db.users (find-In (λ v. v.id == user_id) db.users u known) k in
      let stored : store_user (row_of u) db.users
          ≡ (some (row_of u), write_row (row_of u) db.users) =
        rw free refl in
      >>=-reply
        (on_database r xadd isoformat event_id clock user_id (on_users (store_user (row_of u))))
        (λ v. publish r xadd isoformat event_id clock user_id v n) (redis, stream, db)
        (redis, stream, db') (row_of u)
        (ap (λ (x : Option User × UserTable). written x.0 redis stream (record db { users = x.1 }))
          stored)

  published :
      (u : User) (n : ℕ) (redis : r.State) (stream : E) (db : Database) (message_id : String)
      → (event u stream).0 ≡ some message_id
      → publish r xadd isoformat event_id clock user_id (row_of u) n (redis, stream, db) ≡ (
        some (
            deleted record {
              status = "deleted";
              user_id = user_id;
              tokens_revoked = n;
              event_id = message_id;
              deleted_at = clock 2;
              cascade_status = "pending";
            }),
        (redis, (event u stream).1, db),
      )
  unfolding publish
  published u n redis stream db message_id e = ground arith

  looked_up :
      (redis : r.State) (stream : E) (db : Database) (u : User)
      → IsUnique db.users
      → find (λ v. v.id == user_id) db.users ≡ some u
      → u.is_deleted ≡ false
      → delete_user r xadd isoformat event_id clock user_id (redis, stream, db)
        ≡ or_else (refused 500 "Internal server error during user deletion") (
            revoke_listed r xadd isoformat event_id clock user_id u
              (token_list (select (is_live user_id (clock 0)) db.tokens))
              (redis, stream, db))
  unfolding delete_user delete_known
  looked_up redis stream db u k known kept = ground (arith, get_by_id-find user_id db.users k)

  -- The deleted user's row, and the rows of the others.
  written_row :
      (u : User) (users : UserTable) (id : String)
      → find (λ v. v.id == user_id) users ≡ some u
      → find (λ v. v.id == id) (write_row (row_of u) users)
        ≡ (if id == user_id then some (row_of u) else find (λ v. v.id == id) users)
  written_row u users id known = find-written (row_of u) id user_id users u refl known

  -- On a table of users with unique columns, while the server answers, and holds sets under no
  -- blacklist key and no text under the key of the user's set, and if the publisher gives the id of a
  -- message: the deletion of a user who is not deleted answers 200 with the number of the user's tokens
  -- that are not revoked and have not expired, when they are read and, in whole seconds, when they are
  -- put on the blacklist. The user's row is marked as deleted at that time by an administrator, every
  -- other row of the users and every refresh token is as it was. A text is reported as a revoked JTI
  -- exactly if it is the primary key of such a token or if it was reported so before.
  pub deletion_marks :
      (redis : r.State) (stream : E) (db : Database) (u : User) (message_id j : String) (was : Bool)
      → IsUnique db.users
      → find (λ v. v.id == user_id) db.users ≡ some u
      → u.is_deleted ≡ false
      → r.up redis ≡ true
      → r.lookup redis (user_tokens_key user_id) ≡ none
      → r.members redis (blacklist_key j) ≡ []
      → (is_token_revoked r j redis).0 ≡ some was
      → (event u stream).0 ≡ some message_id
      → let (answer, s') =
          delete_user r xadd isoformat event_id clock user_id (redis, stream, db) in
        let active : RefreshToken → Bool = λ t.
          t.user_id == user_id
          && (not t.revoked
              && (ltb (clock 0) t.expires_at && ltb (clock 1 / second) (t.expires_at / second))) in
        let deleted_user : User = record u {
          is_deleted = true;
          deleted_at = some (clock 2);
          deletion_reason = some "admin_deletion";
          updated_at = clock 3;
        } in
        (answer
          ≡ deleted record {
            status = "deleted";
            user_id = user_id;
            tokens_revoked = length (select active db.tokens);
            event_id = message_id;
            deleted_at = clock 2;
            cascade_status = "pending";
          })
        × ((id : String)
            → find (λ v. v.id == id) s'.2.users
              ≡ (if id == user_id then some deleted_user else find (λ v. v.id == id) db.users))
        × (s'.2.tokens ≡ db.tokens)
        × ((is_token_revoked r j s'.0).0 ≡ some (any (λ t. active t && t.id == j) db.tokens || was))
  deletion_marks redis stream db u message_id j was k known kept up free none_set before sent =
      let l = token_list (select (is_live user_id (clock 0)) db.tokens) in
      let now = timestamp (clock 1) in
      let (count, listed) =
        all_live_revoked r lawful user_id "user_deleted" none now l j redis up free none_set was
          before in
      let redis' = (revoke_all_user_tokens r user_id "user_deleted" none now l redis).1 in
      let n = live_count now l in
      let db' = record db { users = write_row (row_of u) db.users } in
      rw
        (
          looked_up redis stream db u k known kept,
          listed_runs u l redis stream db n count,
          marked u n redis' stream db k known,
          published u n redis' stream db' message_id sent,
          count_active user_id (clock 0) (clock 1) db.tokens,
        )
        (
          refl,
          λ id. written_row u db.users id known,
          refl,
          listed ∙ rw (list_active user_id (clock 0) (clock 1) j db.tokens) refl,
        )
