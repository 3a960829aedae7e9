-- ===== src/Oauth/Operations.antt =====
-- internal/oauth/store.go: the methods that write the repository as the steps of a history.
use certus.Common.{String, List, [], ◌∷◌, Time, Hash}
use certus.Oauth.Types.{
  AuthorizationCode, AccessToken, RefreshToken, DeviceAuthorization, OidcClientSession,
  MemoryRepository,
}
use certus.Oauth.Tokens.{
  save_authorization_code, consume_authorization_code, save_access_token, revoke_access_token,
  save_refresh_token, rotate_refresh_token, revoke_refresh_token,
}
use certus.Oauth.Revocation.{revoke_session_tokens, revoke_user_tokens, revoke_client_tokens}
use certus.Oauth.Consents.{grant_consent, delete_consent}
use certus.Oauth.Devices.{
  Decision, save_device_authorization, decide_device_authorization, poll_device_authorization,
  save_oidc_client_session, delete_oidc_client_sessions,
}

-- The calls of `Repository` that write. The lock makes each one a single step.
pub data Call : Type 0 where
  save_code : AuthorizationCode → Call
  consume_code_call : Hash → String → String → String → Time → Call
  save_access : AccessToken → Call
  revoke_access_call : Hash → String → Time → Call
  save_refresh : RefreshToken → Call
  rotate : Hash → RefreshToken → Time → Call
  revoke_refresh_call : Hash → String → Time → Call
  save_device : DeviceAuthorization → Call
  decide : Hash → Decision → Time → Call
  poll : Hash → String → Time → Call
  save_client_session : OidcClientSession → Call
  delete_client_sessions : String → Call
  revoke_session : String → String → Time → Call
  revoke_user : String → String → Time → Call
  revoke_client : String → Time → Call
  grant : String → String → List String → Time → Call
  withdraw : String → String → Time → Call

unfoldable pub step : MemoryRepository → Call → MemoryRepository
step r (save_code value) = save_authorization_code r value
step r (consume_code_call hash client_id redirect_uri code_challenge now) =
    (consume_authorization_code r hash client_id redirect_uri code_challenge now).0
step r (save_access value) = save_access_token r value
step r (revoke_access_call hash client_id now) = (revoke_access_token r hash client_id now).0
step r (save_refresh value) = save_refresh_token r value
step r (rotate hash replacement now) = (rotate_refresh_token r hash replacement now).0
step r (revoke_refresh_call hash client_id now) = (revoke_refresh_token r hash client_id now).0
step r (save_device value) = save_device_authorization r value
step r (decide user_hash c now) = (decide_device_authorization r user_hash c now).0
step r (poll device_hash client_id now) = (poll_device_authorization r device_hash client_id now).0
step r (save_client_session value) = save_oidc_client_session r value
step r (delete_client_sessions session_id) = delete_oidc_client_sessions r session_id
step r (revoke_session user_id session_id now) = revoke_session_tokens r user_id session_id now
step r (revoke_user user_id except now) = revoke_user_tokens r user_id except now
step r (revoke_client client_id now) = revoke_client_tokens r client_id now
step r (grant user_id client_id scopes now) = (grant_consent r user_id client_id scopes now).0
step r (withdraw user_id client_id now) = (delete_consent r user_id client_id now).0

unfoldable pub run : MemoryRepository → List Call → MemoryRepository
unfolding step
run r [] = r
run r (c ∷ cs) = run (step r c) cs
