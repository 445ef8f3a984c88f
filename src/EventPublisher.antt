-- ===== src/EventPublisher.antt =====
-- app/services/event_publisher.py: `class RedisStreamsPublisher`, over any stream to which entries are
-- added. The loggers, the metrics and the set-up are left out. `none` is an exception, which every
-- method passes on; the id of a message is a text. `isoformat` prints a time with a Z. The data of an
-- event are a dictionary, whose JSON is left to the library.
use codelab_auth_service.Common.{
  ℕ, String, Option, none, some, List, [], ◌∷◌, ◌++◌, ◌==◌, if◌then◌else◌,
}
use codelab_auth_service.TokenEndpoint.{or_text}

-- A value in the data of an event.
pub data Field : Type 0 where
  text : String → Field
  texts : List String → Field

abbrev pub EventData : Type 0
EventData = List (String × Field)

-- What is added to the stream; `content` is its `data`.
pub record Envelope : Type 0 where
  pub event_id : String
  pub event_type : String
  pub event_version : String
  pub timestamp : String
  pub aggregate_type : String
  pub aggregate_id : String
  pub correlation_id : String
  pub causation_id : String
  pub source : String
  pub content : EventData

-- `if value: data[key] = value`
abbrev pub with_text : String → Option String → EventData
with_text key none = []
with_text key (some value) = if value == "" then [] else (key, text value) ∷ []

abbrev pub with_changes : Option (List String) → EventData
with_changes none = []
with_changes (some []) = []
with_changes (some (c ∷ cs)) = ("changes", texts (c ∷ cs)) ∷ []

-- `xadd` is the client's call with the stream's key, `user_events`, and its length.
module _ {E : Type 0} (xadd : Envelope → E → Option String × E) (isoformat : ℕ → String)
    (event_id : String) (clock : ℕ → ℕ) where
  -- A time, or the time at which the data are made.
  abbrev pub with_time : String → Option String → EventData
  with_time key time = (key, text (or_text time (isoformat (clock 0)))) ∷ []

  unfoldable pub publish_event :
      (event_type aggregate_type aggregate_id : String) (content : EventData)
      (correlation_id causation_id : Option String)
      → E
      → Option String × E
  publish_event event_type aggregate_type aggregate_id content correlation_id causation_id stream =
      if event_type == ""
      then (none, stream)
      else xadd
          record {
            event_id = event_id;
            event_type = event_type;
            event_version = "1.0";
            timestamp = isoformat (clock 1);
            aggregate_type = aggregate_type;
            aggregate_id = aggregate_id;
            correlation_id = or_text correlation_id event_id;
            causation_id = or_text causation_id event_id;
            source = "auth-service";
            content = content;
          }
          stream

  pub publish_user_created :
      (user_id email : String) (first_name last_name created_at correlation_id : Option String)
      → E
      → Option String × E
  unfolding publish_event
  publish_user_created user_id email first_name last_name created_at correlation_id =
      publish_event "user.created" "user" user_id
        (("user_id", text user_id)
          ∷ ("email", text email)
          ∷ (with_text "first_name" first_name
              ++ (with_text "last_name" last_name ++ with_time "created_at" created_at)))
        correlation_id none

  pub publish_user_updated :
      (user_id : String) (email first_name last_name : Option String)
      (changes : Option (List String)) (updated_at correlation_id : Option String)
      → E
      → Option String × E
  unfolding publish_event
  publish_user_updated user_id email first_name last_name changes updated_at correlation_id =
      publish_event "user.updated" "user" user_id
        (("user_id", text user_id)
          ∷ (with_text "email" email
              ++ (with_text "first_name" first_name
                  ++ (with_text "last_name" last_name
                      ++ (with_changes changes ++ with_time "updated_at" updated_at)))))
        correlation_id none

  unfoldable pub publish_user_deleted :
      (user_id : String) (email : Option String) (reason : String)
      (admin_id deleted_at correlation_id : Option String)
      → E
      → Option String × E
  unfolding publish_event
  publish_user_deleted user_id email reason admin_id deleted_at correlation_id =
      publish_event "user.deleted" "user" user_id
        (("user_id", text user_id)
          ∷ ("reason", text reason)
          ∷ (with_text "email" email
              ++ (with_text "admin_id" admin_id ++ with_time "deleted_at" deleted_at)))
        correlation_id none

  pub publish_token_revoked :
      (token_jti user_id reason : String) (admin_id revoked_at correlation_id : Option String)
      → E
      → Option String × E
  unfolding publish_event
  publish_token_revoked token_jti user_id reason admin_id revoked_at correlation_id =
      publish_event "token.revoked" "token" token_jti
        (("token_jti", text token_jti)
          ∷ ("user_id", text user_id)
          ∷ ("reason", text reason)
          ∷ (with_text "admin_id" admin_id ++ with_time "revoked_at" revoked_at))
        correlation_id none
