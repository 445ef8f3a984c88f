-- ===== src/Lib.antt =====
-- The CodeLab authentication service: a model of its OAuth2 token endpoint and of the services and
-- tables behind it, and proofs of what they promise.
--
-- The program and its model
--
-- A request to `POST /token` (app/api/v1/oauth.py) with a password is let through by the
-- brute-force protection, authenticated by the authentication service against the clients and
-- the users, and answered with an access token and a refresh token; the refresh token is saved
-- as a row of a table. A request with a refresh token is checked against that table, which revokes
-- a whole family of tokens if a used one comes back, and answered with new tokens, the old one
-- being used up. Sessions are the rows of that table, grouped; a user lists and revokes them with
-- an access token. A user registers, confirms the address with a mailed token, and sets a new
-- password with another mailed token. An administrator deletes a user, which fills the blacklist of
-- tokens and publishes an event. The middleware and the two services behind it count requests and
-- failures in Redis. Each file models one part:
--
--   TokenEndpoint        app/api/v1/oauth.py: token_endpoint and the two handlers of grants, over
--                        the pair of the states of Redis and of the database
--   SessionsEndpoint     app/api/v1/sessions.py, and get_current_user of app/core/dependencies.py
--   RegisterEndpoint     app/api/v1/register.py: register and confirm_email
--   PasswordResetEndpoint  app/api/v1/password_reset.py: both handlers
--   AdminEndpoint        app/api/v1/admin.py: delete_user and get_user
--   RateLimitMiddleware  app/middleware/rate_limit.py, around any application
--   Handlers             the state behind the handlers, and their audit entries
--   AuthService          app/services/auth_service.py, TokenRequest and TokenResponse
--   TokenService         app/services/token_service.py; JwtPayload: app/schemas/token.py
--   RefreshTokenService  app/services/refresh_token_service.py; RefreshToken:
--                        app/models/refresh_token.py
--   SessionService       app/services/session_service.py
--   OauthClientService   app/services/oauth_client_service.py; OauthClient:
--                        app/models/oauth_client.py and app/schemas/oauth.py
--   UserService          app/services/user_service.py; User: app/models/user.py
--   RateLimiter          app/services/rate_limiter.py
--   BruteForce           app/services/brute_force_protection.py
--   TokenBlacklist       app/services/token_blacklist_service.py
--   PasswordReset        app/services/password_reset_service.py and
--                        app/models/password_reset_token.py
--   EmailService         app/services/email_service.py; ConfirmationToken:
--                        app/models/email_confirmation_token.py
--   EmailRetry, EmailSender  app/services/email_retry.py and app/services/email_sender.py
--   EventPublisher       app/services/event_publisher.py
--   AuditService         app/services/audit_service.py, of which Database has the methods that the
--                        token endpoint calls
--   Validators           app/utils/validators.py
--   Database             the tables together
--   Settings             app/core/config.py
--   Common, Commands, Text  shared names, sequences of calls that can raise, and Python's split,
--                        join, sorted(set(…)), lower and len of texts
--   Redis, Jwt           interfaces of what is not in the repository, with laws, each with an
--                        instance that meets the laws; Redis.Interface has the counters of the rate
--                        limiter and the brute-force protection, Redis.Store the texts and sets of
--                        the blacklist
--
-- A method is a function of the same name in snake case. It takes the state, the readings of the
-- clock as a function of their number, and the values that it draws (uuid4, token_urlsafe), and
-- returns its result, `none` where it raises, with the next state; what was written before an error
-- stays written, since each write is committed by itself. Helpers are the parts of a method between
-- its early returns. What a handler starts in the background, a mail or the event of a
-- registration, is part of its answer.
--
-- Assumptions and bounds
--
-- Times are natural numbers, of microseconds where the code has a datetime and of seconds in a
-- token, so a clock before 1970 and a negative lifetime are left out. The delays between the
-- attempts of a mail are exact, without the rounding of floats. A dictionary that is stored as JSON
-- stands for its text. A table is the list of its rows in the order of a query without ORDER BY; an
-- object of the session stands for the row of its primary key; a commit raises when a unique column
-- would hold a value twice, and on nothing else. Foreign keys and column lengths are left out. The
-- loops run over lists or count down from a number of attempts, so the recursion is structural and
-- no fuel is needed. sha256, bcrypt, the SMTP client and the JWT library with pydantic are
-- parameters; what is assumed of them stands with the theorem that uses it, and the laws of Redis
-- and of the JWT library are the records `IsLawful`. Loggers and metrics are left out. A handler
-- runs without interleaving.
--
-- Not modelled: the endpoint of the logout, which calls a method that is not there; the suggestions
-- of user names; the validation of forms by Pydantic; the texts of mails and the tasks that send
-- them; the key files and their endpoint; metrics, migrations, seeding and set-up, which are input
-- and output.
pub mod Common
pub mod Commands
pub mod Redis
pub mod Settings
pub mod Text
pub mod JwtPayload
pub mod RefreshToken
pub mod RefreshTokenService
pub mod SessionService
pub mod SessionsEndpoint
pub mod RateLimiter
pub mod RateLimitMiddleware
pub mod RegisterEndpoint
pub mod BruteForce
pub mod OauthClient
pub mod OauthClientService
pub mod EmailSender
pub mod EmailService
pub mod EmailRetry
pub mod Jwt
pub mod TokenBlacklist
pub mod TokenService
pub mod User
pub mod UserService
pub mod Validators
pub mod Database
pub mod AdminEndpoint
pub mod AuditService
pub mod AuthService
pub mod ConfirmationToken
pub mod TokenEndpoint
pub mod EventPublisher
pub mod Handlers
pub mod PasswordReset
pub mod PasswordResetEndpoint
