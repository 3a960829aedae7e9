-- ===== src/Oauth/Examples.antt =====
-- internal/oauth: the data of the examples.
mod Tokens
mod Devices
use certus.Common.{none, some, List, [], ◌∷◌}
use certus.Oauth.Types.{
  AuthorizationCode, AccessToken, RefreshToken, DeviceAuthorization, MemoryRepository, pending,
  approved,
}
use certus.Oauth.Operations.{Call, save_code, revoke_user, grant}

abbrev pub a_code : AuthorizationCode
a_code = record {
  hash = 1 ∷ 2 ∷ [];
  client_id = "portal";
  user_id = "alice";
  session_id = "s1";
  redirect_uri = "https://portal/cb";
  scope = "openid" ∷ [];
  nonce = "";
  code_challenge = "c";
  authenticated_at = 10;
  auth_methods = "pwd" ∷ [];
  assurance_level = "aal1";
  created_at = 10;
  expires_at = 70;
}

abbrev pub a_token : RefreshToken
a_token = record {
  hash = 3 ∷ [];
  family_id = "f1";
  client_id = "portal";
  user_id = "alice";
  session_id = "s1";
  scope = some ("openid" ∷ "email" ∷ []);
  issued_at = 10;
  expires_at = 1000;
}

abbrev pub next_token : RefreshToken
next_token = record a_token {
  hash = 4 ∷ [];
  family_id = "";
  scope = some ("openid" ∷ []);
  issued_at = 20;
}

abbrev pub an_access : AccessToken
an_access = record {
  hash = 5 ∷ [];
  client_id = "portal";
  user_id = "alice";
  session_id = "s1";
  family_id = "f1";
  scope = "openid" ∷ [];
  issued_at = 10;
  expires_at = 900;
}

abbrev pub a_device : DeviceAuthorization
a_device = record {
  device_hash = 6 ∷ [];
  user_hash = 7 ∷ [];
  client_id = "tv";
  user_id = "";
  scope = "openid" ∷ [];
  status = pending;
  authenticated_at = 0;
  auth_methods = [];
  assurance_level = "";
  created_at = 10;
  expires_at = 1000;
  interval = 5;
  last_poll_at = none;
}

abbrev pub stored : MemoryRepository
stored = record {
  codes = record { code = a_code; consumed_at = none; revoked_at = none } ∷ [];
  access_tokens = record { token = an_access; revoked_at = none } ∷ [];
  refresh = record { token = a_token; consumed_at = none; revoked_at = none } ∷ [];
  devices = record a_device { status = approved; user_id = "alice" } ∷ [];
  oidc_sessions = [];
  consents =
      record {
        user_id = "alice";
        client_id = "portal";
        scopes = "openid" ∷ [];
        granted_at = 5;
        updated_at = 5;
      }
      ∷ [];
}

abbrev pub a_history : List Call
a_history =
    save_code a_code ∷ revoke_user "alice" "s2" 25 ∷ grant "alice" "portal" ("email" ∷ []) 26 ∷ []
