-- ===== src/Client/Define.antt =====
-- internal/client/client.go: New, Replace, RotateSecret and the same for systems. `sha256` and what the
-- random number generator drew, if it drew something, are arguments: the 32 bytes as base64 text.
use certus.Common.{
  ◌>>◌, ◌>>=◌, String, true, not, ◌&&◌, Option, none, some, List, [], ◌∷◌, ◌==◌, if◌then◌else◌, ok,
  err, Hash, is_nil, reject, is_zero, ℤ, is_empty, trim_space,
}
use certus.Client.Types.{
  Reply, default_access_token_lifetime, default_refresh_token_lifetime, application_public,
  application_confidential, protocol_oauth21, protocol_cas, grant_authorization_code,
  grant_refresh_token, cas_version3, Platform, System, CreateSystem, ReplaceSystemInput, Settings,
  Client, CreateClient, ReplaceClient, invalid, archived, random_failed,
}
use certus.Client.Policy.{
  contains, supports_protocol, supports_oauth, default_token_endpoint_auth_method,
  normalized_token_lifetime_seconds,
}
use certus.Client.Validate.{is_nil_list, validate, validate_system}

-- The loop of uniqueStrings, with what it has seen; that of uniqueSourceIDs and uniqueClientIDs
-- turns the text into lower case as well.
unfoldable pub unique_from : (String → String) → List String → List String → List String
unique_from clean seen [] = []
unique_from clean seen (v ∷ vs) =
    let value = clean v in
    let skipped = unique_from clean seen vs in
    let kept = unique_from clean (value ∷ seen) vs in
    if is_empty value then skipped else if contains seen value then skipped else value ∷ kept

unfoldable pub unique_strings : List String → List String
unfolding unique_from
unique_strings values = unique_from trim_space [] values

unfoldable pub unique_source_ids : Platform → List String → List String
unfolding unique_from
unique_source_ids g values = unique_from (λ v. g.to_lower (trim_space v)) [] values

-- The loop of uniqueMethods, uniqueProtocols and uniqueGrantTypes.
unfoldable pub unique_values_from : List String → List String → List String
unique_values_from seen [] = []
unique_values_from seen (v ∷ vs) =
    let skipped = unique_values_from seen vs in
    let kept = unique_values_from (v ∷ seen) vs in if contains seen v then skipped else v ∷ kept

unfoldable pub unique_values : List String → List String
unfolding unique_values_from
unique_values values = unique_values_from [] values

unfoldable pub effective_system_id : Platform → String → String → String
effective_system_id g value fallback =
    let value = g.to_lower (trim_space value) in
    if is_empty value then g.to_lower (trim_space fallback) else value

unfoldable pub with_default_token_lifetimes : Client → Client
unfolding normalized_token_lifetime_seconds
with_default_token_lifetimes c = record c {
  settings = record c.settings {
    access_token_lifetime_seconds =
        normalized_token_lifetime_seconds c.access_token_lifetime_seconds
          default_access_token_lifetime;
    refresh_token_lifetime_seconds =
        normalized_token_lifetime_seconds c.refresh_token_lifetime_seconds
          default_refresh_token_lifetime;
  };
}

-- The fields of the composite literal that New and Replace have in common. The lifetimes differ.
unfoldable pub clean_settings : Platform → Settings → ℤ → ℤ → Settings
unfolding unique_strings unique_source_ids unique_values
clean_settings g s access refresh = record s {
  name = trim_space s.name;
  description = trim_space s.description;
  favicon_url = trim_space s.favicon_url;
  launch_uri = trim_space s.launch_uri;
  protocols = unique_values s.protocols;
  grant_types = unique_values s.grant_types;
  redirect_uris = unique_strings s.redirect_uris;
  post_logout_redirect_uris = unique_strings s.post_logout_redirect_uris;
  backchannel_logout_uri = trim_space s.backchannel_logout_uri;
  login_methods = unique_values s.login_methods;
  identity_source_ids = unique_source_ids g s.identity_source_ids;
  introspectable_by = unique_source_ids g s.introspectable_by;
  allowed_scopes = unique_strings s.allowed_scopes;
  access_token_lifetime_seconds = access;
  refresh_token_lifetime_seconds = refresh;
  cas_service_urls = unique_strings s.cas_service_urls;
}

-- The defaults that follow the literals, one `if` each, in the order of the source.
abbrev pub default_application : Client → Client
default_application c =
    if is_empty c.application_type then record c { application_type = application_public } else c

abbrev pub default_auth_method : Client → Client
default_auth_method c =
    if is_empty c.token_endpoint_auth_method
    then record c {
      settings = record c.settings {
        token_endpoint_auth_method = default_token_endpoint_auth_method c.application_type;
      };
    }
    else c

abbrev pub default_protocols : Client → Client
default_protocols c =
    if is_nil_list c.protocols
    then record c { settings = record c.settings { protocols = protocol_oauth21 ∷ [] } }
    else c

abbrev pub default_grants : Client → Client
default_grants c =
    if supports_oauth c && is_nil_list c.grant_types
    then record c {
      settings = record c.settings {
        grant_types = grant_authorization_code ∷ grant_refresh_token ∷ [];
      };
    }
    else c

abbrev pub default_cas_version : Client → Client
default_cas_version c =
    if supports_protocol c protocol_cas && is_empty c.cas_version
    then record c { settings = record c.settings { cas_version = cas_version3 } }
    else c

abbrev pub default_scopes : Client → Client
default_scopes c =
    if is_nil_list c.allowed_scopes
    then record c {
      settings = record c.settings { allowed_scopes = "openid" ∷ "profile" ∷ "email" ∷ [] };
    }
    else c

unfoldable pub new_secret : (String → Hash) → Option String → Reply (String × Hash)
new_secret sha256 none = err random_failed
new_secret sha256 (some drawn) = ok (drawn, sha256 drawn)

-- The composite literal of New.
unfoldable pub new_fields : Platform → CreateClient → Client
unfolding effective_system_id clean_settings
new_fields g input =
    let client_id = g.to_lower (trim_space input.id) in
    record {
      id = client_id;
      system_id = effective_system_id g input.system_id client_id;
      system = none;
      application_type = input.application_type;
      settings =
          clean_settings g input.settings
            (normalized_token_lifetime_seconds input.access_token_lifetime_seconds
              default_access_token_lifetime)
            (normalized_token_lifetime_seconds input.refresh_token_lifetime_seconds
              default_refresh_token_lifetime);
      enabled = elim input.enabled [ none ↦ true | some b ↦ b ];
      archived_at = none;
      secret_hash = [];
    }

-- The client that New validates: the defaults in place.
unfoldable pub new_item : Platform → CreateClient → Client
unfolding new_fields
new_item g input = default_scopes (
    default_cas_version (
      default_grants
        (default_protocols (default_auth_method (default_application (new_fields g input))))))

-- New
unfoldable pub new_client :
    Platform → (String → Hash) → Option String → CreateClient → Reply (Client × String)
unfolding new_secret
new_client g sha256 drawn input = do
  let item = new_item g input
  validate g item
  if item.application_type == application_public then ok (item, "") else do
    (secret, hash) ← new_secret sha256 drawn
    ok (record item { secret_hash = hash }, secret)

-- The composite literal of Replace.
unfoldable pub replaced_fields : Platform → Client → ReplaceClient → Client
unfolding effective_system_id clean_settings
replaced_fields g current input = record {
  id = current.id;
  system_id = effective_system_id g input.system_id current.system_id;
  system = none;
  application_type = current.application_type;
  settings =
      clean_settings g input.settings
        (if is_zero input.access_token_lifetime_seconds
          then normalized_token_lifetime_seconds current.access_token_lifetime_seconds
              default_access_token_lifetime
          else input.access_token_lifetime_seconds)
        (if is_zero input.refresh_token_lifetime_seconds
          then normalized_token_lifetime_seconds current.refresh_token_lifetime_seconds
              default_refresh_token_lifetime
          else input.refresh_token_lifetime_seconds);
  enabled = elim input.enabled [ none ↦ current.enabled | some b ↦ b ];
  archived_at = none;
  secret_hash = current.secret_hash;
}

-- The client that Replace validates: the defaults in place.
unfoldable pub replaced_item : Platform → Client → ReplaceClient → Client
unfolding replaced_fields
replaced_item g current input =
    default_scopes
      (default_cas_version (default_grants (default_auth_method (replaced_fields g current input))))

-- Replace
unfoldable pub replace_client : Platform → Client → ReplaceClient → Reply Client
replace_client g current input = do
  reject (not (is_nil current.archived_at)) archived
  let item = replaced_item g current input
  validate g item
  ok item

-- RotateSecret
unfoldable pub rotate_client_secret :
    (String → Hash) → Option String → Client → Reply (Client × String)
unfolding new_secret
rotate_client_secret sha256 drawn current = do
  reject (not (is_nil current.archived_at)) archived
  reject (not (current.application_type == application_confidential)) invalid
  (secret, hash) ← new_secret sha256 drawn
  ok (record current { secret_hash = hash }, secret)

-- NewSystem
unfoldable pub new_system : Platform → CreateSystem → Reply System
new_system g input = do
  let item : System = record {
    id = g.to_lower (trim_space input.id);
    name = trim_space input.name;
    description = trim_space input.description;
    favicon_url = trim_space input.favicon_url;
    launch_uri = trim_space input.launch_uri;
    portal_visible = elim input.portal_visible [ none ↦ true | some b ↦ b ];
  }
  validate_system g item
  ok item

-- ReplaceSystem
unfoldable pub replace_system_fields : Platform → System → ReplaceSystemInput → Reply System
replace_system_fields g current input = do
  let item : System = record {
    id = current.id;
    name = trim_space input.name;
    description = trim_space input.description;
    favicon_url = trim_space input.favicon_url;
    launch_uri = trim_space input.launch_uri;
    portal_visible = input.portal_visible;
  }
  validate_system g item
  ok item

unfoldable pub system_from_client : Platform → Client → System
unfolding effective_system_id
system_from_client g c = record {
  id = effective_system_id g c.system_id c.id;
  name = c.name;
  description = c.description;
  favicon_url = c.favicon_url;
  launch_uri = c.launch_uri;
  portal_visible = not (is_empty c.launch_uri);
}
