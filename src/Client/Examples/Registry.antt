-- ===== src/Client/Examples/Registry.antt =====
-- internal/client/client.go: the theorems on validation and on the registry at concrete inputs.
use certus.Common.{
  ◌≢◌, string_key, trim_space, reject, ℕ, ◌≤◌, String, ◌≡◌, refl, ◌↔◌, ◌⊎◌, false, none, some, List,
  [], ◌∷◌, arith, ok, err, reject, trim_space,
}
use certus.Client.Types.{
  Platform, default_access_token_lifetime, default_refresh_token_lifetime,
  min_access_token_lifetime, max_access_token_lifetime, min_refresh_token_lifetime,
  max_refresh_token_lifetime, application_public, application_confidential, Client, ReplaceClient,
  MemoryRepository, not_found,
}
use certus.Client.Policy.{
  client_id_pattern, scope_pattern, valid_endpoint_url, allows_introspection_by, supports_protocol,
  supports_oauth, supports_grant, default_token_endpoint_auth_method, access_token_lifetime,
  refresh_token_lifetime, normalized_token_lifetime_seconds, validate_token_lifetime,
}
use certus.Client.Validate.{
  validate_names, validate_links, validate_application, validate_protocols, validate_grants,
  validate_redirects, validate_backchannel, validate_login, validate_introspection, validate_scopes,
  validate_lifetimes, validate_cas, validate,
}
use certus.Client.Valid.{IsValid}
use certus.Client.Accepts.{validate_iff}
use certus.Client.Lifetimes.{IsAsked, valid_lifetimes_bounded}
use certus.Client.Define.{
  effective_system_id, with_default_token_lifetimes, replaced_fields, replaced_item, replace_client,
  system_from_client,
}
use certus.Client.Defined.{new_client_ok}
use certus.Client.Repository.{
  delete_system, ensure_system, clone_with_system, find_client, normalized, create_client,
  store_client, store_secret, archive, delete_archived,
}
use certus.Client.Operations.{
  call, step, run, Call, delete_system_call, create_call, replace_call, archive_call,
  delete_archived_call,
}
use certus.Client.Failure.{failed_call_unchanged}
use certus.Client.Kept.{IsRegistry}
use certus.Client.Consistent.{run-IsRegistry}
use certus.Client.AllValid.{AllValid, run-AllValid}
use certus.Client.Archived.{archived_stays_disabled}
use certus.Client.Deleted.{deleted_client_forgotten}
use certus.Client.Owned.{AllOwned, AllKnow, run-AllOwned}
use certus.Client.Examples.{
  Option, pos, api, platform, platform-IsStable, platform-KeepsIds, portal_input, portal, digest,
  portal_is_new, portal_validates, api_validates,
}

validate_iff_example : (validate platform portal ≡ ok tt) ↔ IsValid platform portal
validate_iff_example = validate_iff platform portal

valid_lifetimes_bounded_example :
    (n m : ℕ) × (access_token_lifetime portal ≡ pos n)
    × (refresh_token_lifetime portal ≡ pos m)
    × IsAsked portal.access_token_lifetime_seconds default_access_token_lifetime n
    × IsAsked portal.refresh_token_lifetime_seconds default_refresh_token_lifetime m
    × (min_access_token_lifetime ≤ n)
    × (n ≤ max_access_token_lifetime)
    × (min_refresh_token_lifetime ≤ m)
    × (m ≤ max_refresh_token_lifetime)
    × (n ≤ m)
valid_lifetimes_bounded_example = valid_lifetimes_bounded platform portal portal_validates

abbrev no_secret : String
no_secret = ""

abbrev drawn : Option String
drawn = some "secret"

new_client_ok_example :
    (validate platform portal ≡ ok tt)
    × (portal.archived_at ≡ none)
    × (((portal.application_type ≡ application_public)
          × (no_secret ≡ "")
          × (portal.secret_hash ≡ []))
        ⊎ ((portal.application_type ≡ application_confidential)
            × (drawn ≡ some no_secret)
            × (portal.secret_hash ≡ digest no_secret)))
new_client_ok_example =
    new_client_ok platform digest drawn portal_input portal no_secret portal_is_new

abbrev renamed : ReplaceClient
renamed = record { system_id = ""; settings = api.settings; enabled = some false }

abbrev api_off : Client
api_off = record api { enabled = false }

api_replaced : replace_client platform api renamed ≡ ok api_off
unfolding replace_client replaced_item replaced_fields validate reject validate_names validate_links
    validate_application validate_protocols validate_grants validate_redirects validate_backchannel
    validate_login validate_introspection validate_scopes validate_lifetimes validate_cas
    validate_token_lifetime client_id_pattern scope_pattern valid_endpoint_url supports_protocol
    supports_oauth supports_grant access_token_lifetime refresh_token_lifetime
    default_token_endpoint_auth_method normalized_token_lifetime_seconds trim_space
api_replaced = refl

abbrev empty : MemoryRepository
empty = record { systems = []; system_order = []; clients = []; order = [] }

empty-IsRegistry : IsRegistry empty
empty-IsRegistry = record {
  systems = record { dict = tt; unique = tt; listed = λ k. refl; named = λ k v h. ground arith };
  clients = record { dict = tt; unique = tt; listed = λ k. refl; named = λ k v h. ground arith };
}

-- Two clients of one system; the second is archived and deleted, and the system stays in use.
abbrev calls : List Call
calls =
    create_call portal
    ∷ create_call api
    ∷ archive_call "api" 70
    ∷ replace_call api
    ∷ delete_system_call "portal"
    ∷ delete_archived_call "api"
    ∷ []

failed_call_unchanged_example : (call platform empty (archive_call "api" 3)).0 ≡ empty
unfolding call archive
failed_call_unchanged_example =
    failed_call_unchanged platform empty (archive_call "api" 3) not_found refl

run-IsRegistry_example : IsRegistry (run platform empty calls)
run-IsRegistry_example = run-IsRegistry platform empty calls platform-IsStable empty-IsRegistry

run-AllValid_example : AllValid platform (run platform empty calls)
run-AllValid_example =
    run-AllValid platform empty calls platform-KeepsIds
      (portal_validates, (api_validates, (tt, (api_validates, (tt, (tt, tt))))))
      (λ k c h. ground arith)

calls_know : AllKnow platform empty calls
unfolding step call create_client normalized with_default_token_lifetimes effective_system_id
    ensure_system system_from_client store_client store_secret archive delete_system delete_archived
    clone_with_system reject validate_names validate_links validate_application validate_protocols
    validate_grants validate_redirects validate_backchannel validate_login validate_introspection
    validate_scopes validate_lifetimes validate_cas validate_token_lifetime client_id_pattern
    scope_pattern valid_endpoint_url supports_protocol supports_oauth supports_grant
    access_token_lifetime refresh_token_lifetime default_token_endpoint_auth_method
    normalized_token_lifetime_seconds trim_space
calls_know = (tt, (tt, (tt, (refl, (tt, (tt, tt))))))

run-AllOwned_example : AllOwned (run platform empty calls)
run-AllOwned_example = run-AllOwned platform empty calls calls_know (λ k c h. ground arith)

abbrev two : MemoryRepository
two = record empty {
  clients = ("portal", portal) ∷ ("api", api) ∷ [];
  order = "portal" ∷ "api" ∷ [];
}

archived_stays_disabled_example :
    (d : Client) × (find_client
        (run platform (archive two "api" 70).0 (create_call api ∷ archive_call "api" 90 ∷ []))
        "api"
      ≡ ok d)
    × (d.archived_at ≡ some 70)
    × (d.enabled ≡ false)
    × (d.secret_hash ≡ digest "old")
archived_stays_disabled_example =
    archived_stays_disabled platform two "api" 70 api (create_call api ∷ archive_call "api" 90 ∷ [])
      refl refl (tt, (tt, tt))

abbrev before_deletion : List Call
before_deletion = create_call portal ∷ create_call api ∷ archive_call "api" 70 ∷ []

api_deleted : (delete_archived (run platform empty before_deletion) "api").1 ≡ ok tt
unfolding step run call create_client normalized with_default_token_lifetimes effective_system_id
    ensure_system system_from_client store_client store_secret archive delete_system delete_archived
    clone_with_system reject validate_names validate_links validate_application validate_protocols
    validate_grants validate_redirects validate_backchannel validate_login validate_introspection
    validate_scopes validate_lifetimes validate_cas validate_token_lifetime client_id_pattern
    scope_pattern valid_endpoint_url supports_protocol supports_oauth supports_grant
    access_token_lifetime refresh_token_lifetime default_token_endpoint_auth_method
    normalized_token_lifetime_seconds trim_space
api_deleted = refl

deleted_client_forgotten_example :
    (find_client (delete_archived (run platform empty before_deletion) "api").0 "api"
      ≡ err not_found)
    × ((k : String) (c : Client)
        → find_client (delete_archived (run platform empty before_deletion) "api").0 k ≡ ok c
        → allows_introspection_by c "api" ≡ false)
    × ((g : Platform) (item : Client) (k : String) (c : Client)
        → item.id ≢ k
        → find_client
            (create_client g (delete_archived (run platform empty before_deletion) "api").0 item).0
            k
          ≡ ok c
        → allows_introspection_by c "api" ≡ false)
deleted_client_forgotten_example =
    deleted_client_forgotten (run platform empty before_deletion) "api"
      (run-IsRegistry platform empty before_deletion platform-IsStable empty-IsRegistry) api_deleted
