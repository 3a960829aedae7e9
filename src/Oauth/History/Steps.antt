-- ===== src/Oauth/History/Steps.antt =====
-- internal/oauth/store.go: every call, and the codes, tokens and devices that are stored.
use certus.Common.{List, [], ◌∷◌, refl, arith, Grows-append}
use certus.Oauth.Types.{MemoryRepository}
use certus.Oauth.Tokens.{save_authorization_code, save_access_token, save_refresh_token}
use certus.Oauth.Revocation.{revoke_session_tokens, of_session}
use certus.Oauth.Devices.{
  save_device_authorization, save_oidc_client_session, delete_oidc_client_sessions,
}
use certus.Oauth.Operations.{
  Call, step, run, save_code, consume_code_call, save_access, revoke_access_call, save_refresh,
  rotate, revoke_refresh_call, save_device, decide, poll, save_client_session,
  delete_client_sessions, revoke_session, revoke_user, revoke_client, grant, withdraw,
}
use certus.Oauth.History.Keeps.{
  KeepsCode, KeepsAccess, KeepsRefresh, KeepsDevice, KeepsCode-refl, KeepsAccess-refl,
  KeepsRefresh-refl, KeepsDevice-refl,
}
use certus.Oauth.History.Persists.{
  Persists, Persists-refl, Persists-trans, Persists-same, codes_refl, access_refl, refresh_refl,
  devices_refl,
}
use certus.Oauth.History.Tokens.{
  consume-Persists, revoke_access-Persists, rotate-Persists, revoke_refresh-Persists,
  matching-Persists,
}
use certus.Oauth.History.Devices.{
  revoke_user-Persists, revoke_client-Persists, delete_consent-Persists, grant_consent-Persists,
  decide-Persists, poll-Persists,
}

-- One call.
pub step-Persists : (r : MemoryRepository) (c : Call) → Persists r (step r c)
unfolding step save_authorization_code save_access_token save_refresh_token
    save_device_authorization revoke_session_tokens save_oidc_client_session
    delete_oidc_client_sessions
step-Persists r (save_code value) = record {
  codes = Grows-append KeepsCode KeepsCode-refl r.codes _;
  access_tokens = access_refl r.access_tokens;
  refresh = refresh_refl r.refresh;
  devices = devices_refl r.devices;
}
step-Persists r (consume_code_call hash client_id redirect_uri code_challenge now) =
    consume-Persists r hash client_id redirect_uri code_challenge now
step-Persists r (save_access value) = record {
  codes = codes_refl r.codes;
  access_tokens = Grows-append KeepsAccess KeepsAccess-refl r.access_tokens _;
  refresh = refresh_refl r.refresh;
  devices = devices_refl r.devices;
}
step-Persists r (revoke_access_call hash client_id now) =
    revoke_access-Persists r hash client_id now
step-Persists r (save_refresh value) = record {
  codes = codes_refl r.codes;
  access_tokens = access_refl r.access_tokens;
  refresh = Grows-append KeepsRefresh KeepsRefresh-refl r.refresh _;
  devices = devices_refl r.devices;
}
step-Persists r (rotate hash replacement now) = rotate-Persists r hash replacement now
step-Persists r (revoke_refresh_call hash client_id now) =
    revoke_refresh-Persists r hash client_id now
step-Persists r (save_device value) = record {
  codes = codes_refl r.codes;
  access_tokens = access_refl r.access_tokens;
  refresh = refresh_refl r.refresh;
  devices = Grows-append KeepsDevice KeepsDevice-refl r.devices _;
}
step-Persists r (decide user_hash c now) = decide-Persists r user_hash c now
step-Persists r (poll device_hash client_id now) = poll-Persists r device_hash client_id now
step-Persists r (save_client_session value) = ground (arith, Persists-refl r)
step-Persists r (delete_client_sessions session_id) = Persists-same r _ refl refl refl refl
step-Persists r (revoke_session user_id session_id now) =
    matching-Persists r (of_session user_id session_id) now
step-Persists r (revoke_user user_id except now) = revoke_user-Persists r user_id except now
step-Persists r (revoke_client client_id now) = revoke_client-Persists r client_id now
step-Persists r (grant user_id client_id scopes now) =
    grant_consent-Persists r user_id client_id scopes now
step-Persists r (withdraw user_id client_id now) = delete_consent-Persists r user_id client_id now

pub run-Persists : (r : MemoryRepository) (cs : List Call) → Persists r (run r cs)
unfolding run
run-Persists r [] = Persists-refl r
run-Persists r (c ∷ cs) =
    Persists-trans r (step r c) (run (step r c) cs) (step-Persists r c) (run-Persists (step r c) cs)
