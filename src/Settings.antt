-- ===== src/Settings.antt =====
-- app/core/config.py: the settings that the modelled code reads, with their default values.
use codelab_auth_service.Common.{ℕ, String, Bool, true}
use codelab_auth_service.Text.Chars.{lower_codes, same_codes, codes}

pub record Settings : Type 0 where
  pub jwt_issuer : String
  pub jwt_audience : String
  pub access_token_lifetime : ℕ
  pub refresh_token_lifetime : ℕ
  pub rate_limit_per_ip : ℕ
  pub rate_limit_per_username : ℕ
  pub brute_force_threshold : ℕ
  pub brute_force_lockout_duration : ℕ
  pub require_email_confirmation : Bool
  pub environment : String
  pub enable_rate_limiting : Bool
  pub send_welcome_email : Bool
  pub password_reset_request_limit : ℕ
  pub password_min_length : ℕ
  pub password_max_length : ℕ
  pub password_require_uppercase : Bool
  pub password_require_lowercase : Bool
  pub password_require_digits : Bool
  pub password_require_special_chars : Bool
  pub smtp_max_retries : ℕ

abbrev pub default_settings : Settings
default_settings = record {
  jwt_issuer = "https://auth.codelab.local";
  jwt_audience = "codelab-api";
  access_token_lifetime = 900;
  refresh_token_lifetime = 2592000;
  rate_limit_per_ip = 5;
  rate_limit_per_username = 10;
  brute_force_threshold = 5;
  brute_force_lockout_duration = 900;
  require_email_confirmation = true;
  environment = "development";
  enable_rate_limiting = true;
  send_welcome_email = true;
  password_reset_request_limit = 3;
  password_min_length = 8;
  password_max_length = 128;
  password_require_uppercase = true;
  password_require_lowercase = true;
  password_require_digits = true;
  password_require_special_chars = true;
  smtp_max_retries = 3;
}

-- `settings.is_development`
unfoldable pub is_development : Settings → Bool
unfolding same_codes lower_codes codes
is_development settings = same_codes (lower_codes settings.environment) (codes "development")
