-- ===== src/EmailSender.antt =====
-- app/services/email_sender.py: `class SMTPEmailSender`, over any SMTP client (aiosmtplib). The
-- loggers are left out; the MIME message that is sent is a parameter's argument.
use Prim.Native.Char.{code}
use codelab_auth_service.Common.{
  ℕ, zero, suc, String, ◌<>◌, Bool, true, false, ◌&&◌, ◌||◌, not, Option, none, some, eqb, leb, ltb,
  truthy, if◌then◌else◌,
}

-- The exceptions, each with the response code that it carries.
pub data Failure : Type 0 where
  auth_failed : ℕ → Failure
  response : ℕ → Failure
  timed_out : Failure
  connection_lost : Failure
  unexpected : Failure

pub data Outcome (A : Type 0) : Type 0 where
  done : A → Outcome A
  raised : Failure → Outcome A

infixl 5 ◌>>=◌ ◌>>◌
abbrev pub ◌>>=◌ :
    {S A B : Type 0} → (S → Outcome A × S) → (A → S → Outcome B × S) → S → Outcome B × S
◌>>=◌ m f s = let (o, s') = m s in elim o [ done a ↦ f a s' | raised e ↦ (raised e, s') ]

abbrev pub ◌>>◌ :
    {S B : Type 0} → (S → Outcome (Unit {0}) × S) → (S → Outcome B × S) → S → Outcome B × S
m >> k = m >>= λ _. k

abbrev pub pure : {S A : Type 0} → A → S → Outcome A × S
pure a s = (done a, s)

-- The client: what `async with SMTP(…)` does on entry and on leaving, and the three calls.
pub record Smtp : Type 1 where
  pub State : Type 0
  pub Message : Type 0
  pub connect : String → ℕ → ℕ → State → Outcome (Unit {0}) × State
  pub starttls : State → Outcome (Unit {0}) × State
  pub login : String → String → State → Outcome (Unit {0}) × State
  pub send_message : Message → State → Outcome (Unit {0}) × State
  pub close : State → State

pub record Account : Type 0 where
  pub smtp_host : String
  pub smtp_port : ℕ
  pub smtp_username : Option String
  pub smtp_password : Option String
  pub smtp_use_tls : Bool
  pub smtp_timeout : ℕ

-- `timeout or self.smtp_timeout`
abbrev pub or_default : Option ℕ → ℕ → ℕ
or_default none default = default
or_default (some zero) default = default
or_default (some (suc n)) default = suc n

module _ (smtp : Smtp) (account : Account) where
  start_tls : smtp.State → Outcome (Unit {0}) × smtp.State
  start_tls = if account.smtp_use_tls then smtp.starttls else pure tt

  log_in_smtp : Option String → Option String → smtp.State → Outcome (Unit {0}) × smtp.State
  log_in_smtp (some username) (some password) =
      if truthy (some username) && truthy (some password)
      then smtp.login username password
      else pure tt
  log_in_smtp _ _ = pure tt

  -- The body of the `async with`; the client is closed however it ends.
  body : smtp.Message → smtp.State → Outcome Bool × smtp.State
  unfolding start_tls log_in_smtp
  body message s =
      let (outcome, s') =
        (do
          start_tls
          log_in_smtp account.smtp_username account.smtp_password
          smtp.send_message message
          pure true)
          s in
      (outcome, smtp.close s')

  -- The handlers: a refused login and a response of 500 to 599 are permanent.
  handled : Outcome Bool × smtp.State → Outcome Bool × smtp.State
  handled (done sent, s) = (done sent, s)
  handled (raised (auth_failed code), s) = (done false, s)
  handled (raised (response code), s) =
      if leb 500 code && ltb code 600 then (done false, s) else (raised (response code), s)
  handled (raised timed_out, s) = (raised timed_out, s)
  handled (raised connection_lost, s) = (raised connection_lost, s)
  handled (raised unexpected, s) = (raised unexpected, s)

  unfoldable pub send_email : smtp.Message → Option ℕ → smtp.State → Outcome Bool × smtp.State
  unfolding body handled
  send_email message timeout s = handled (
      (smtp.connect account.smtp_host account.smtp_port (or_default timeout account.smtp_timeout)
          >> body message)
        s)

-- `"*" * n`
abbrev stars : ℕ → String
stars zero = ""
stars (suc n) = "*" <> stars n

-- The stars for the characters before the first @, and the rest of the text from the @ on.
abbrev masked_rest : String → String
masked_rest String.[] = ""
masked_rest (String.◌∷◌ c s) =
    let rest = masked_rest s in if eqb (code c) b'@' then String.◌∷◌ c s else "*" <> rest

abbrev has_at : String → Bool
has_at String.[] = false
has_at (String.◌∷◌ c s) = eqb (code c) b'@' || has_at s

-- `_mask_email`: of the part before the first @ the first character stays, if it has two at least.
unfoldable pub mask_email : String → String
mask_email String.[] = ""
mask_email (String.◌∷◌ c String.[]) = String.◌∷◌ c ""
mask_email (String.◌∷◌ c (String.◌∷◌ d s)) =
    if not (has_at (String.◌∷◌ c (String.◌∷◌ d s)))
    then String.◌∷◌ c (String.◌∷◌ d s)
    else if eqb (code c) b'@' || eqb (code d) b'@'
    then masked_rest (String.◌∷◌ c (String.◌∷◌ d s))
    else String.◌∷◌ c (masked_rest (String.◌∷◌ d s))
