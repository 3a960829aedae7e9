-- ===== src/Client/Examples.antt =====
-- internal/client/client.go: the registry at work, and the theorems at concrete inputs.
mod Registry
use certus.Common.{
  pos, string_key, trim_space-trim_space, trim_space, reject, String, ◌≡◌, refl, true, false,
  Option, none, some, [], ◌∷◌, ◌==◌, if◌then◌else◌, ok, err, Hash, reject, trim_space, codes,
  trim_space-trim_space,
}
use certus.Client.Types.{
  zero_settings, login_password, application_public, application_confidential, auth_none,
  auth_secret_basic, protocol_oauth21, grant_authorization_code, grant_refresh_token,
  grant_client_credentials, Url, Platform, Settings, Client, CreateClient, invalid,
}
use certus.Client.Policy.{
  client_id_pattern, scope_pattern, valid_endpoint_url, supports_protocol, supports_oauth,
  supports_grant, default_token_endpoint_auth_method, access_token_lifetime, refresh_token_lifetime,
  normalized_token_lifetime_seconds, validate_token_lifetime,
}
use certus.Client.Validate.{
  validate_names, validate_links, validate_application, validate_protocols, validate_grants,
  validate_redirects, validate_backchannel, validate_login, validate_introspection, validate_scopes,
  validate_lifetimes, validate_cas, validate,
}
use certus.Client.Define.{new_fields, new_item, new_client}
use certus.Client.Kept.{IsStable}
use certus.Client.Stored.{KeepsIds}

abbrev https : String → Url
https host = record {
  scheme = "https";
  has_user = false;
  host = host;
  hostname = host;
  fragment = "";
}

-- Three texts that are URLs, one of them with a fragment, and strings that are in lower case already.
abbrev parse : String → Option Url
parse text =
    if text == "https://app.example/cb"
    then some (https "app.example")
    else if text == "https://app.example/out"
    then some (https "app.example")
    else if text == "https://app.example/#x"
    then some (record (https "app.example") { fragment = "x" })
    else none

abbrev pub platform : Platform
platform = record {
  parse_url = parse;
  equal_fold = ◌==◌;
  to_lower = λ s. s;
  is_loopback = λ s. s == "127.0.0.1";
}

pub platform-IsStable : IsStable platform
platform-IsStable s = trim_space-trim_space s

pub platform-KeepsIds : KeepsIds platform
platform-KeepsIds s h = refl

abbrev wanted : Settings
wanted = record zero_settings {
  name = " Portal ";
  redirect_uris = "https://app.example/cb" ∷ " https://app.example/cb " ∷ [];
  login_methods = login_password ∷ [];
  introspectable_by = "api" ∷ [];
}

abbrev pub portal_input : CreateClient
portal_input = record {
  id = "portal";
  system_id = "";
  application_type = "";
  settings = wanted;
  enabled = none;
}

abbrev pub portal : Client
portal = record {
  id = "portal";
  system_id = "portal";
  system = none;
  application_type = application_public;
  settings = record wanted {
    name = "Portal";
    token_endpoint_auth_method = auth_none;
    protocols = protocol_oauth21 ∷ [];
    grant_types = grant_authorization_code ∷ grant_refresh_token ∷ [];
    redirect_uris = "https://app.example/cb" ∷ [];
    allowed_scopes = "openid" ∷ "profile" ∷ "email" ∷ [];
    access_token_lifetime_seconds = pos 900;
    refresh_token_lifetime_seconds = pos 2592000;
  };
  enabled = true;
  archived_at = none;
  secret_hash = [];
}

abbrev pub digest : String → Hash
digest s = codes s

pub portal_is_new : new_client platform digest (some "secret") portal_input ≡ ok (portal, "")
unfolding new_client new_item new_fields validate reject validate_names validate_links
    validate_application validate_protocols validate_grants validate_redirects validate_backchannel
    validate_login validate_introspection validate_scopes validate_lifetimes validate_cas
    validate_token_lifetime client_id_pattern scope_pattern valid_endpoint_url supports_protocol
    supports_oauth supports_grant access_token_lifetime refresh_token_lifetime
    default_token_endpoint_auth_method normalized_token_lifetime_seconds trim_space
portal_is_new = refl

pub portal_validates : validate platform portal ≡ ok tt
unfolding validate reject validate_names validate_links validate_application validate_protocols
    validate_grants validate_redirects validate_backchannel validate_login validate_introspection
    validate_scopes validate_lifetimes validate_cas validate_token_lifetime client_id_pattern
    scope_pattern valid_endpoint_url supports_protocol supports_oauth supports_grant
    access_token_lifetime refresh_token_lifetime default_token_endpoint_auth_method
    normalized_token_lifetime_seconds trim_space
portal_validates = refl

-- The client that introspects, which is confidential.
abbrev pub api : Client
api = record portal {
  id = "api";
  system_id = "portal";
  application_type = application_confidential;
  settings = record portal.settings {
    token_endpoint_auth_method = auth_secret_basic;
    grant_types = grant_client_credentials ∷ [];
    introspectable_by = [];
  };
  secret_hash = digest "old";
}

pub api_validates : validate platform api ≡ ok tt
unfolding validate reject validate_names validate_links validate_application validate_protocols
    validate_grants validate_redirects validate_backchannel validate_login validate_introspection
    validate_scopes validate_lifetimes validate_cas validate_token_lifetime client_id_pattern
    scope_pattern valid_endpoint_url supports_protocol supports_oauth supports_grant
    access_token_lifetime refresh_token_lifetime default_token_endpoint_auth_method
    normalized_token_lifetime_seconds trim_space
api_validates = refl

-- A client without a redirect URI may not use the authorization code grant.
no_redirect_refused :
    validate platform (record portal { settings = record portal.settings { redirect_uris = [] } })
    ≡ err invalid
unfolding validate reject validate_names validate_links validate_application validate_protocols
    validate_grants validate_redirects validate_backchannel validate_login validate_introspection
    validate_scopes validate_lifetimes validate_cas validate_token_lifetime client_id_pattern
    scope_pattern valid_endpoint_url supports_protocol supports_oauth supports_grant
    access_token_lifetime refresh_token_lifetime default_token_endpoint_auth_method
    normalized_token_lifetime_seconds trim_space
no_redirect_refused = refl
