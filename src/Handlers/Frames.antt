-- ===== src/Handlers/Frames.antt =====
-- What an audit entry leaves as it is, and when it is written.
use codelab_auth_service.Common.{
  ℕ, String, ◌≡◌, ◌≢◌, ◌||◌, ◌==◌, eq_iff, refl, Bool, ap, Bool-cases, inl, inr, false, Option,
  none, some, List, [], ◌∷◌, ◌++◌, if◌then◌else◌, arith,
}
use codelab_auth_service.AuditService.{Details, log}
use codelab_auth_service.Commands.{pure, Keeps, >>=-Keeps}
use codelab_auth_service.Database.{AuditLog, Database, log_event, logged}
use codelab_auth_service.Redis.Interface.{Redis}
use codelab_auth_service.Handlers.{Reply, State, on_db, log_and_reply}

-- The database is the same but for the audit entries.
pub record IsFramed (db db' : Database) : Type 0 where
  pub same_clients : db'.clients ≡ db.clients
  pub same_users : db'.users ≡ db.users
  pub same_tokens : db'.tokens ≡ db.tokens
  pub same_resets : db'.resets ≡ db.resets
  pub same_confirmations : db'.confirmations ≡ db.confirmations

pub IsFramed-refl : (db : Database) → IsFramed db db
IsFramed-refl db = record {
  same_clients = refl;
  same_users = refl;
  same_tokens = refl;
  same_resets = refl;
  same_confirmations = refl;
}

-- An entry with a fresh identifier is written.
pub log_event-writes :
    (entry : AuditLog) (db : Database)
    → logged entry.id db.audits ≡ false
    → log_event entry db ≡ (some entry, record db { audits = db.audits ++ entry ∷ [] })
unfolding log_event
log_event-writes entry db free =
    ap
      (λ (b : Bool).
        if b then (none, db) else (some entry, record db { audits = db.audits ++ entry ∷ [] }))
      free

pub log-writes :
    (id : String) (now : ℕ) (event_type : String) (user_id : Option String) (details : Details)
    (db : Database)
    → logged id db.audits ≡ false
    → (entry : AuditLog) × (log id now event_type user_id none (some details) db
        ≡ (some entry, record db { audits = db.audits ++ entry ∷ [] }))
unfolding log
log-writes id now event_type user_id details db free = (_, log_event-writes _ db free)

pub logged-append :
    (id : String) (entry : AuditLog) (audits : List AuditLog)
    → logged id (audits ++ entry ∷ []) ≡ (logged id audits || id == entry.id)
unfolding logged
logged-append id entry [] = ground arith
logged-append id entry (a ∷ rest) = ground (arith, logged-append id entry rest)

module _ (id : String) (now : ℕ) (event_type : String) (user_id : Option String)
    (details : Details) where
  pub log-IsFramed :
      (start db : Database)
      → IsFramed start db
      → IsFramed start (log id now event_type user_id none (some details) db).1
  unfolding log log_event
  log-IsFramed start db h = elim (Bool-cases (logged id db.audits)) [
    | inl taken ↦ rw taken h
    | inr free ↦ rw free (record {
      same_clients = h.same_clients;
      same_users = h.same_users;
      same_tokens = h.same_tokens;
      same_resets = h.same_resets;
      same_confirmations = h.same_confirmations;
    })
  ]

  pub log-logged :
      (other : String) (db : Database)
      → id ≢ other
      → logged other db.audits ≡ false
      → logged other (log id now event_type user_id none (some details) db).1.audits ≡ false
  unfolding log log_event
  log-logged other db apart h = elim (Bool-cases (logged id db.audits)) [
    | inl taken ↦ rw taken h
    | inr free ↦
        rw (free, logged-append other _ db.audits, h) (ground (arith, eq_iff other id, apart))
  ]

  module _ (r : Redis) (answer : Reply) where
    -- The answer, once the entry is written.
    pub log-replies :
        (s : State r)
        → logged id s.1.audits ≡ false
        → (log_and_reply r id now event_type user_id details answer s).0 ≡ some answer
    unfolding log log_event
    log-replies s free = ground arith

    pub log_and_reply-Keeps :
        (start : Database)
        → Keeps
            (λ (s : State r). IsFramed start s.1)
            (log_and_reply r id now event_type user_id details answer)
    log_and_reply-Keeps start =
        >>=-Keeps (λ (s : State r). IsFramed start s.1) (λ _. pure answer) (λ e s h. h)
          (on_db r (log id now event_type user_id none (some details)))
          (λ s h. log-IsFramed start s.1 h)
