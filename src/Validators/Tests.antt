-- ===== src/Validators/Tests.antt =====
-- Runs of the validators, and their theorem at a concrete text.
use codelab_auth_service.Common.{◌≡◌, ◌↔◌, refl, none, some}
use codelab_auth_service.Settings.{default_settings}
use codelab_auth_service.Text.{split}
use codelab_auth_service.Validators.{
  no_special, bad_format, bad_scope, is_word_char, is_client_char, validate_email,
  validate_password, validate_username, validate_scope, validate_client_id,
}
use codelab_auth_service.Validators.Words.{IsName, names_accepted}

good_email : validate_email "ann.b+c@mail.example.org" ≡ none
unfolding validate_email
good_email = refl

email_without_domain : validate_email "ann@example" ≡ some bad_format
unfolding validate_email
email_without_domain = refl

good_password : validate_password default_settings "Secret1!" ≡ none
unfolding validate_password
good_password = refl

plain_password : validate_password default_settings "Secret12" ≡ some no_special
unfolding validate_password
plain_password = refl

good_scope : validate_scope "api:read  api:write" ≡ none
unfolding validate_scope split
good_scope = refl

odd_scope : validate_scope "api:read a/b" ≡ some (bad_scope "a/b")
unfolding validate_scope split
odd_scope = refl

-- A name with a newline behind it is accepted.
name_with_newline : validate_username "ann_1\n" ≡ none
unfolding validate_username
name_with_newline = refl

names_accepted_example :
    ((validate_username "ann-1" ≡ none) ↔ IsName is_word_char "ann-1")
    × ((validate_client_id "ann-1" ≡ none) ↔ IsName is_client_char "ann-1")
names_accepted_example = names_accepted "ann-1"
