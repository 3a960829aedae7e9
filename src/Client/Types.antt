-- ===== src/Client/Types.antt =====
-- internal/client/client.go: the types, the constants and the repository's state. `Platform` is what
-- the file calls of Go's packages net, net/url and strings.
use certus.Common.{
  String, Bool, false, Option, none, List, [], Result, Time, Hash, ℤ, pos, second, ℕ, ◌*◌,
}

-- The errors that the package names, and one for a random number generator that fails. The text that
-- is wrapped around ErrInvalid has no model.
pub data Error : Type 0 where
  not_found conflict invalid archived not_archived system_not_found system_conflict : Error
  system_in_use random_failed : Error

abbrev pub Reply : Type 0 → Type 0
Reply A = Result Error A

-- What url.Parse answers: `hostname` is `u.Hostname()`, `has_user` is `u.User != nil`.
pub record Url : Type 0 where
  pub scheme : String
  pub has_user : Bool
  pub host : String
  pub hostname : String
  pub fragment : String

-- url.Parse, strings.EqualFold, strings.ToLower, and whether net.ParseIP reads a loopback address.
pub record Platform : Type 0 where
  pub parse_url : String → Option Url
  pub equal_fold : String → String → Bool
  pub to_lower : String → String
  pub is_loopback : String → Bool

abbrev pub default_access_token_lifetime : ℕ
default_access_token_lifetime = 900 * second

abbrev pub min_access_token_lifetime : ℕ
min_access_token_lifetime = 60 * second

abbrev pub max_access_token_lifetime : ℕ
max_access_token_lifetime = 86400 * second

abbrev pub default_refresh_token_lifetime : ℕ
default_refresh_token_lifetime = 2592000 * second

abbrev pub min_refresh_token_lifetime : ℕ
min_refresh_token_lifetime = 3600 * second

abbrev pub max_refresh_token_lifetime : ℕ
max_refresh_token_lifetime = 31536000 * second

-- LoginMethod, ApplicationType, TokenEndpointAuthMethod, Protocol, GrantType and CASVersion are
-- strings.
abbrev pub login_password : String
login_password = "password"

abbrev pub login_ldap : String
login_ldap = "ldap"

abbrev pub login_oidc : String
login_oidc = "oidc"

abbrev pub application_public : String
application_public = "public"

abbrev pub application_confidential : String
application_confidential = "confidential"

abbrev pub auth_none : String
auth_none = "none"

abbrev pub auth_secret_basic : String
auth_secret_basic = "client_secret_basic"

abbrev pub auth_secret_post : String
auth_secret_post = "client_secret_post"

abbrev pub protocol_oauth20 : String
protocol_oauth20 = "oauth2.0"

abbrev pub protocol_oauth21 : String
protocol_oauth21 = "oauth2.1"

abbrev pub protocol_cas : String
protocol_cas = "cas"

abbrev pub grant_authorization_code : String
grant_authorization_code = "authorization_code"

abbrev pub grant_refresh_token : String
grant_refresh_token = "refresh_token"

abbrev pub grant_client_credentials : String
grant_client_credentials = "client_credentials"

abbrev pub grant_device_code : String
grant_device_code = "urn:ietf:params:oauth:grant-type:device_code"

abbrev pub cas_version1 : String
cas_version1 = "1.0"

abbrev pub cas_version2 : String
cas_version2 = "2.0"

abbrev pub cas_version3 : String
cas_version3 = "3.0"

pub record System : Type 0 where
  pub id : String
  pub name : String
  pub description : String
  pub favicon_url : String
  pub launch_uri : String
  pub portal_visible : Bool

pub record CreateSystem : Type 0 where
  pub id : String
  pub name : String
  pub description : String
  pub favicon_url : String
  pub launch_uri : String
  pub portal_visible : Option Bool

pub record ReplaceSystemInput : Type 0 where
  pub name : String
  pub description : String
  pub favicon_url : String
  pub launch_uri : String
  pub portal_visible : Bool

-- The fields that Client, CreateClient and ReplaceClient have in common and that a call of Replace
-- may change.
pub record Settings : Type 0 where
  pub name : String
  pub description : String
  pub favicon_url : String
  pub launch_uri : String
  pub token_endpoint_auth_method : String
  pub protocols : List String
  pub grant_types : List String
  pub redirect_uris : List String
  pub post_logout_redirect_uris : List String
  pub backchannel_logout_uri : String
  pub backchannel_logout_session_required : Bool
  pub login_methods : List String
  pub identity_source_ids : List String
  pub introspectable_by : List String
  pub allowed_scopes : List String
  pub access_token_lifetime_seconds : ℤ
  pub refresh_token_lifetime_seconds : ℤ
  pub cas_version : String
  pub cas_service_urls : List String
  pub cas_proxy : Bool
  pub cas_gateway : Bool
  pub cas_renew : Bool
  pub cas_single_logout : Bool

pub record Client : Type 0 where
  pub id : String
  pub system_id : String
  pub system : Option System
  pub application_type : String
  pub settings : Settings
  pub open settings use *
  pub enabled : Bool
  pub archived_at : Option Time
  pub secret_hash : Hash

pub record CreateClient : Type 0 where
  pub id : String
  pub system_id : String
  pub application_type : String
  pub settings : Settings
  pub open settings use *
  pub enabled : Option Bool

pub record ReplaceClient : Type 0 where
  pub system_id : String
  pub settings : Settings
  pub open settings use *
  pub enabled : Option Bool

pub record MemoryRepository : Type 0 where
  pub systems : List (String × System)
  pub system_order : List String
  pub clients : List (String × Client)
  pub order : List String

-- The zero values that a missing key of a map reads as.
abbrev pub zero_system : System
zero_system = record {
  id = "";
  name = "";
  description = "";
  favicon_url = "";
  launch_uri = "";
  portal_visible = false;
}

abbrev pub zero_settings : Settings
zero_settings = record {
  name = "";
  description = "";
  favicon_url = "";
  launch_uri = "";
  token_endpoint_auth_method = "";
  protocols = [];
  grant_types = [];
  redirect_uris = [];
  post_logout_redirect_uris = [];
  backchannel_logout_uri = "";
  backchannel_logout_session_required = false;
  login_methods = [];
  identity_source_ids = [];
  introspectable_by = [];
  allowed_scopes = [];
  access_token_lifetime_seconds = pos 0;
  refresh_token_lifetime_seconds = pos 0;
  cas_version = "";
  cas_service_urls = [];
  cas_proxy = false;
  cas_gateway = false;
  cas_renew = false;
  cas_single_logout = false;
}

abbrev pub zero_client : Client
zero_client = record {
  id = "";
  system_id = "";
  system = none;
  application_type = "";
  settings = zero_settings;
  enabled = false;
  archived_at = none;
  secret_hash = [];
}
