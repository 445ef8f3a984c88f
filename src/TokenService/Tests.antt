-- ===== src/TokenService/Tests.antt =====
-- The theorem on the token service at concrete data.
use codelab_auth_service.Common.{ℕ, String, ◌≡◌, none, some, if◌then◌else◌}
use codelab_auth_service.Jwt.Plain.{plain, plain-IsLawful}
use codelab_auth_service.Settings.{default_settings}
use codelab_auth_service.TokenService.{
  TokenPair, create_token_pair, validate_access_token, validate_refresh_token,
}
use codelab_auth_service.TokenService.Lifetimes.{is_live, pair_accepted}

abbrev ticks : ℕ → ℕ
ticks i = 7000000

abbrev drawn : ℕ → String
drawn i = "jti"

abbrev pair : TokenPair
pair = create_token_pair plain default_settings "ann" "web" "read" (some 3) (some 5) ticks drawn

pair_accepted_example :
    (validate_access_token plain default_settings 9 pair.access_token
      ≡ (if is_live pair.access_token_payload 9 then some pair.access_token_payload else none))
    × (validate_refresh_token plain default_settings 9 pair.access_token ≡ none)
    × (validate_refresh_token plain default_settings 9 pair.refresh_token
        ≡ (if is_live pair.refresh_token_payload 9 then some pair.refresh_token_payload else none))
    × (validate_access_token plain default_settings 9 pair.refresh_token ≡ none)
pair_accepted_example =
    pair_accepted plain default_settings plain-IsLawful "ann" "web" "read" (some 3) (some 5) ticks
      drawn 9
