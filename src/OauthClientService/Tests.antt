-- ===== src/OauthClientService/Tests.antt =====
-- The theorems on the client service at concrete data.
use codelab_auth_service.Common.{
  ℕ, String, ◌≡◌, ◌↔◌, ◌⊎◌, inr, refl, ap, true, false, none, some, [], ◌∷◌, select, eq_refl,
}
use codelab_auth_service.OauthClient.{clashes}
use codelab_auth_service.OauthClient.Examples.{web, clients, machine, plain_hash, plain_verify}
use codelab_auth_service.OauthClientService.{
  validate_client, validate_scope, create_client, check_scope, create_unless, get_by_client_id,
  new_client,
}
use codelab_auth_service.OauthClientService.Checks.{
  has_id, HasSecret, validate_client_iff, create_then_validate,
}
use codelab_auth_service.OauthClientService.Scopes.{scope_granted}
use codelab_auth_service.Text.{split, contains, scan, is_space, sorted_set, insert_sorted, join}
use codelab_auth_service.Text.Sorted.{IsAscending}

scope_granted_example :
    let (ok, granted) = validate_scope web (some "write read") in
    ((ok ≡ true) ↔ (
      (s : String)
      → contains (split "write read") s ≡ true
      → contains (split web.allowed_scopes) s ≡ true))
    × (ok ≡ true
        → IsAscending (split granted)
          × ((s : String) → contains (split granted) s ≡ contains (split "write read") s))
scope_granted_example = scope_granted web "write read" (λ e. cc e)

normalized : validate_scope web (some "write read") ≡ (true, "read write")
unfolding validate_scope check_scope split scan is_space contains sorted_set insert_sorted join
normalized = refl

validate_client_iff_example :
    ((validate_client plain_verify "web" none clients).0 ≡ some (some web)) ↔ (
      (select (has_id "web") clients ≡ web ∷ [])
      × (web.is_active ≡ true)
      × ((web.is_confidential ≡ false) ⊎ HasSecret plain_verify web none))
validate_client_iff_example = validate_client_iff plain_verify "web" none clients web

abbrev ticks : ℕ → ℕ
ticks i = i

create_then_validate_example :
    (validate_client plain_verify machine.client_id machine.client_secret
      (create_client plain_hash machine "2" ticks clients).1).0
    ≡ some (some (new_client plain_hash machine "2" ticks))
unfolding create_client create_unless get_by_client_id select clashes
create_then_validate_example =
    create_then_validate plain_verify plain_hash machine "2" ticks clients
      (new_client plain_hash machine "2" ticks) (λ s. ap some (eq_refl s)) refl (inr refl)
