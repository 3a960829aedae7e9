-- ===== src/Oauth/Grants/Approval.antt =====
-- internal/oauth/store.go: the decision on a device, and its grant.
use certus.Common.{
  String, ◌≡◌, refl, ◌≢◌, inl, inr, Bool, false, List, [], ◌∷◌, map, arith, ok, Time, Hash,
  Bool-cases, Option-cases, any, All, All-append, find_first, find_first-All, All-change_first,
  visit_first-state,
}
use certus.Oauth.Types.{
  status_eq, RefreshToken, DeviceAuthorization, OidcClientSession, MemoryRepository, pending,
  approved,
}
use certus.Oauth.Tokens.{
  save_authorization_code, consume_authorization_code, save_access_token, revoke_access_token,
  save_refresh_token, revoke_family, rotate_at, rotate_refresh_token, revoke_refresh_token,
}
use certus.Oauth.Revocation.{
  open_of_client, revoke_session_tokens, deny_if, approved_by, approved_for, revoke_user_tokens,
  revoke_client_tokens,
}
use certus.Oauth.Consents.{consent_of, grant_consent, delete_consent}
use certus.Oauth.Devices.{
  save_device_authorization, awaits_decision, decided, decide_device_authorization, polled,
  poll_device, poll_device_authorization, save_oidc_client_session, delete_oidc_client_sessions,
  Decision,
}
use certus.Oauth.Operations.{
  step, run, Call, rotate, revoke_refresh_call, save_device, decide, poll, save_client_session,
  revoke_user, revoke_client, grant, withdraw,
}
use certus.Oauth.Grants.DeviceFlow.{poll_ok_iff}

-- The call stores no device but a pending one, and approves none.
abbrev pub ApprovesNothing : Call → Type 0
ApprovesNothing (save_device d) = d.status ≡ pending
ApprovesNothing (decide user_hash c now) = c.approve ≡ false
ApprovesNothing _ = Unit

abbrev IsUnapproved : DeviceAuthorization → Type 0
IsUnapproved d = status_eq d.status approved ≡ false

abbrev pub NoneApproved : MemoryRepository → Type 0
NoneApproved r = All IsUnapproved r.devices

poll_device-IsUnapproved :
    (now : Time) (d : DeviceAuthorization) → IsUnapproved d → IsUnapproved (poll_device now d).0
unfolding poll_device
poll_device-IsUnapproved now d h = ground arith

denied-NoneApproved :
    (p : DeviceAuthorization → Bool) (xs : List DeviceAuthorization)
    → All IsUnapproved xs
    → All IsUnapproved (map (deny_if p) xs)
denied-NoneApproved p [] h = tt
denied-NoneApproved p (d ∷ ds) h = (deny_one d h.0, denied-NoneApproved p ds h.1)
  where
    deny_one : (x : DeviceAuthorization) → IsUnapproved x → IsUnapproved (deny_if p x)
    deny_one x k = ground arith

decide-NoneApproved :
    (r : MemoryRepository) (user_hash : Hash) (c : Decision) (now : Time)
    → c.approve ≡ false
    → NoneApproved r
    → NoneApproved (decide_device_authorization r user_hash c now).0
unfolding decide_device_authorization
decide-NoneApproved r user_hash c now no_approval h =
    elim (Option-cases (find_first (awaits_decision user_hash now) r.devices)) [
      | inl e ↦ rw (e, decide_device_authorization) h
      | inr (d, e) ↦
          let written =
            All-change_first IsUnapproved (awaits_decision user_hash now) (decided c) r.devices
              (λ x m k. ground arith) h in
          rw (e, decide_device_authorization) (ground (arith, written))
    ]

poll-NoneApproved :
    (r : MemoryRepository) (device_hash : Hash) (client_id : String) (now : Time)
    → NoneApproved r
    → NoneApproved (poll_device_authorization r device_hash client_id now).0
unfolding poll_device_authorization
poll-NoneApproved r device_hash client_id now h = rw visit_first-state (
    All-change_first IsUnapproved (polled device_hash client_id) _ r.devices
      (λ d m k. poll_device-IsUnapproved now d k) h)

delete_consent-NoneApproved :
    (r : MemoryRepository) (user_id client_id : String) (now : Time)
    → NoneApproved r
    → NoneApproved (delete_consent r user_id client_id now).0
unfolding delete_consent
delete_consent-NoneApproved r user_id client_id now h =
    elim (Bool-cases (any (consent_of user_id client_id) r.consents)) [
      | inl e ↦ rw e (denied-NoneApproved (approved_for user_id client_id) r.devices h)
      | inr e ↦ rw e h
    ]

rotate-devices :
    (r : MemoryRepository) (hash : Hash) (replacement : RefreshToken) (now : Time)
    → (rotate_refresh_token r hash replacement now).0.devices ≡ r.devices
unfolding rotate_refresh_token rotate_at
rotate-devices r hash replacement now = ground arith

revoke_refresh-devices :
    (r : MemoryRepository) (hash : Hash) (client_id : String) (now : Time)
    → (revoke_refresh_token r hash client_id now).0.devices ≡ r.devices
unfolding revoke_refresh_token revoke_family
revoke_refresh-devices r hash client_id now = ground arith

save_session-devices :
    (r : MemoryRepository) (value : OidcClientSession)
    → (save_oidc_client_session r value).devices ≡ r.devices
unfolding save_oidc_client_session
save_session-devices r value = ground arith

grant-devices :
    (r : MemoryRepository) (user_id client_id : String) (scopes : List String) (now : Time)
    → (grant_consent r user_id client_id scopes now).0.devices ≡ r.devices
unfolding grant_consent
grant-devices r user_id client_id scopes now = ground arith

step-NoneApproved :
    (r : MemoryRepository) (c : Call) → ApprovesNothing c → NoneApproved r → NoneApproved (step r c)
unfolding step save_authorization_code consume_authorization_code save_access_token
    revoke_access_token save_refresh_token save_device_authorization revoke_session_tokens
    revoke_user_tokens revoke_client_tokens delete_oidc_client_sessions
step-NoneApproved r (save_device d) q h =
    All-append IsUnapproved r.devices (d ∷ []) h (rw q refl, tt)
step-NoneApproved r (decide user_hash c now) q h = decide-NoneApproved r user_hash c now q h
step-NoneApproved r (poll device_hash client_id now) q h =
    poll-NoneApproved r device_hash client_id now h
step-NoneApproved r (revoke_user user_id except now) q h =
    denied-NoneApproved (approved_by user_id) r.devices h
step-NoneApproved r (revoke_client client_id now) q h =
    denied-NoneApproved (open_of_client client_id) r.devices h
step-NoneApproved r (withdraw user_id client_id now) q h =
    delete_consent-NoneApproved r user_id client_id now h
step-NoneApproved r (rotate hash replacement now) q h = rw (rotate-devices r hash replacement now) h
step-NoneApproved r (revoke_refresh_call hash client_id now) q h =
    rw (revoke_refresh-devices r hash client_id now) h
step-NoneApproved r (save_client_session value) q h = rw (save_session-devices r value) h
step-NoneApproved r (grant user_id client_id scopes now) q h =
    rw (grant-devices r user_id client_id scopes now) h
step-NoneApproved r _ q h = h

run-NoneApproved :
    (r : MemoryRepository) (cs : List Call)
    → All ApprovesNothing cs
    → NoneApproved r
    → NoneApproved (run r cs)
unfolding run
run-NoneApproved r [] q h = h
run-NoneApproved r (c ∷ cs) q h = run-NoneApproved (step r c) cs q.1 (step-NoneApproved r c q.0 h)

-- From a repository with no approved device, and through any calls that store only pending devices
-- and approve none, no poll hands out a grant.
pub no_grant_without_approval :
    (r : MemoryRepository) (cs : List Call) (device_hash : Hash) (client_id : String) (now : Time)
    (a : DeviceAuthorization)
    → NoneApproved r
    → All ApprovesNothing cs
    → (poll_device_authorization (run r cs) device_hash client_id now).1 ≢ ok a
no_grant_without_approval r cs device_hash client_id now a h q got =
    let (d, e, v, _) = (poll_ok_iff (run r cs) device_hash client_id now a).0 got in
    let unapproved =
      find_first-All IsUnapproved (polled device_hash client_id) (run r cs).devices d
        (run-NoneApproved r cs q h) e in
    ground (arith, v.status)
