-- ===== src/PasswordResetEndpoint/Requests.antt =====
-- What a request for a reset answers, and which mail it sends.
use codelab_auth_service.Common.{
  ℕ, ◌+◌, ◌*◌, String, ◌≡◌, ◌≢◌, refl, sym, ap, ◌∙◌, Bool, true, false, Option, none, some, arith,
  leb, ◌==◌, eq_refl, if◌then◌else◌,
}
use codelab_auth_service.AuditService.{log}
use codelab_auth_service.Commands.{or_else, >>=-reply}
use codelab_auth_service.Database.{Database, on_users, logged, log_event}
use codelab_auth_service.Handlers.{Reply, reply, State, on_db}
use codelab_auth_service.PasswordReset.{create_token, verify_token, token_expiration_minutes}
use codelab_auth_service.PasswordReset.Rows.{IsKeyed}
use codelab_auth_service.PasswordReset.Use.{create_then_verify}
use codelab_auth_service.RefreshTokenService.{second}
use codelab_auth_service.RateLimiter.{check_rate_limit_username}
use codelab_auth_service.Redis.Interface.{Redis}
use codelab_auth_service.Settings.{Settings}
use codelab_auth_service.TokenEndpoint.{HttpRequest}
use codelab_auth_service.User.{User}
use codelab_auth_service.UserService.{get_by_email}
use codelab_auth_service.UserService.Keys.{IsUnique}
use codelab_auth_service.UserService.Lookups.{find, get_by_email-find}
use codelab_auth_service.PasswordResetEndpoint.{
  Mail, sent_text, issue, try_issue, finish_request, continue_request, request_password_reset,
}

-- The answer to a request that the limiter allows, and to one that it does not.
abbrev pub answer_of : Bool → Reply
answer_of allows =
    if allows
    then reply 200 sent_text
    else reply 429 "Too many password reset requests. Try again later."

module _ (r : Redis) (settings : Settings) (sha256 hash : String → String) (request : HttpRequest)
    (clock : ℕ → ℕ) (draw : ℕ → String) where
  -- The rate limiter's answer to the address, and the state after it.
  abbrev pub verdict : String → r.State → Bool × ℕ
  verdict email redis =
      (check_rate_limit_username r settings email (some settings.password_reset_request_limit) 3600
        redis).0

  abbrev pub counted_state : String → r.State → r.State
  counted_state email redis =
      (check_rate_limit_username r settings email (some settings.password_reset_request_limit) 3600
        redis).1

  requested :
      (email : String) (redis : r.State) (db : Database)
      → request_password_reset r settings sha256 hash request clock draw email (redis, db)
        ≡ or_else
            (reply 500 "Internal server error", none)
            (continue_request r settings sha256 hash request clock draw email
              (verdict email redis)
              (counted_state email redis, db))
  unfolding request_password_reset
  requested email redis db = refl

  -- What a user's token and mail come to, where there is a user.
  abbrev mailed : Option User → State r → Option Mail × State r
  mailed none s = (none, s)
  mailed (some u) s = issue r settings sha256 hash request clock draw u s

  finish_mails :
      (o : Option User) (s : State r)
      → finish_request r settings sha256 hash request clock draw o s
        ≡ (some (reply 200 sent_text, (mailed o s).0), (mailed o s).1)
  unfolding finish_request try_issue
  finish_mails none s = refl
  finish_mails (some u) s = refl

  -- An allowed request of an address on a table with unique columns.
  allowed :
      (email : String) (n : ℕ) (redis : r.State) (db : Database)
      → IsUnique db.users
      → continue_request r settings sha256 hash request clock draw email (true, n) (redis, db)
        ≡ finish_request r settings sha256 hash request clock draw
            (find (λ u. u.email == email) db.users)
            (redis, db)
  unfolding continue_request
  allowed email n redis db k =
      >>=-reply (on_db r (on_users (get_by_email email)))
        (finish_request r settings sha256 hash request clock draw) (redis, db) (redis, db)
        (find (λ u. u.email == email) db.users) (ground (arith, get_by_email-find email db.users k))

  by_verdict :
      (email : String) (v : Bool × ℕ) (redis : r.State) (db : Database)
      → IsUnique db.users
      → logged (draw 0) db.audits ≡ false
      → (or_else
          (reply 500 "Internal server error", none)
          (continue_request r settings sha256 hash request clock draw email v (redis, db))).0.0
        ≡ answer_of v.0
  by_verdict email (true, n) redis db k free =
      rw
        (
          allowed email n redis db k,
          finish_mails (find (λ u. u.email == email) db.users) (redis, db),
        )
        refl
  by_verdict email (false, n) redis db k free =
      unfold continue_request log log_event in ground arith

  -- For a table with unique columns and a fresh identifier of the audit entry: the answer to a
  -- request for a reset is read off the rate limiter alone. Two databases, one with an account of the
  -- address and one without, give the same answer.
  pub answer_hides_account :
      (email : String) (redis : r.State) (db db' : Database)
      → IsUnique db.users
      → IsUnique db'.users
      → logged (draw 0) db.audits ≡ false
      → logged (draw 0) db'.audits ≡ false
      → let ask = request_password_reset r settings sha256 hash request clock draw email in
        ((ask (redis, db)).0.0 ≡ (ask (redis, db')).0.0)
        × ((ask (redis, db)).0.0 ≡ answer_of (verdict email redis).0)
  answer_hides_account email redis db db' k k' free free' =
      let here = by_verdict email (verdict email redis) (counted_state email redis) db k free in
      let there = by_verdict email (verdict email redis) (counted_state email redis) db' k' free' in
      rw (requested email redis db, requested email redis db') (here ∙ sym there, here)

  issue_mails :
      (u : User) (redis : r.State) (db : Database)
      → (create_token sha256 u.id (draw 0) (draw 1) (clock 0) db.resets).0 ≡ some (draw 0)
      → logged (draw 2) db.audits ≡ false
      → ((issue r settings sha256 hash request clock draw u (redis, db)).0 ≡ some (u.email, draw 0))
        × ((issue r settings sha256 hash request clock draw u (redis, db)).1.1.resets
            ≡ (create_token sha256 u.id (draw 0) (draw 1) (clock 0) db.resets).1)
  unfolding issue log log_event
  issue_mails u redis db made free = (ground arith, ground arith)

  -- On tables with unique columns and with fresh draws, an allowed request for the address of a user
  -- answers as any other and mails a token to that address. The token gives this user until thirty
  -- minutes after its creation, and nobody later.
  pub mailed_token_good :
      (email : String) (redis : r.State) (db : Database) (u : User)
      → IsUnique db.users
      → IsKeyed db.resets
      → find (λ v. v.email == email) db.users ≡ some u
      → (verdict email redis).0 ≡ true
      → draw 0 ≢ ""
      → (create_token sha256 u.id (draw 0) (draw 1) (clock 0) db.resets).0 ≡ some (draw 0)
      → logged (draw 2) db.audits ≡ false
      → (later : ℕ)
      → let (answer, s') =
          request_password_reset r settings sha256 hash request clock draw email (redis, db) in
        (answer ≡ (reply 200 sent_text, some (u.email, draw 0)))
        × ((verify_token sha256 later (draw 0) s'.1.resets).0
            ≡ some (
                if leb later (clock 0 + token_expiration_minutes * 60 * second)
                then some u.id
                else none))
  mailed_token_good email redis db u k keyed known allows filled made free later =
      let redis' = counted_state email redis in
      let n = (verdict email redis).1 in
      let v : verdict email redis ≡ (true, n) = ap (λ (b : Bool). (b, n)) allows in
      let (mail, rows) = issue_mails u redis' db made free in
      let good =
        create_then_verify sha256 u.id (draw 0) (draw 1) (clock 0) db.resets keyed filled made later
          (draw 0) filled in
      rw
        (
          requested email redis db,
          v,
          allowed email n redis' db k,
          known,
          finish_mails (some u) (redis', db),
          mail,
          rows,
        )
        (refl, good ∙ rw (eq_refl (sha256 (draw 0))) refl)
