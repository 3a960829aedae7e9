-- ===== src/Oauth/Devices.antt =====
-- internal/oauth/store.go: device authorizations and the sessions of OpenID Connect clients.
use certus.Common.{
  String, ◌+◌, ◌*◌, Bool, false, not, ◌&&◌, none, some, List, [], ◌∷◌, ◌++◌, ◌==◌, Time, Hash,
  after, before, second, bytes_equal, if◌then◌else◌, find_first, change_first, visit_first, filter,
  any, ok, err,
}
use certus.Oauth.Types.{
  DeviceAuthorization, DeviceStatus, pending, approved, denied, consumed, status_eq,
  OidcClientSession, MemoryRepository, Reply, grant_not_found, grant_expired, grant_consumed,
  authorization_pending, slow_down, access_denied,
}
use certus.Oauth.Consents.{grant_consent}

unfoldable pub save_device_authorization : MemoryRepository → DeviceAuthorization → MemoryRepository
save_device_authorization r value = record r { devices = r.devices ++ value ∷ [] }

abbrev pub awaits_decision : Hash → Time → DeviceAuthorization → Bool
awaits_decision user_hash now d =
    bytes_equal d.user_hash user_hash && after d.expires_at now && status_eq d.status pending

unfoldable pub find_device_by_user_code : MemoryRepository → Hash → Time → Reply DeviceAuthorization
find_device_by_user_code r hash now = elim (find_first (awaits_decision hash now) r.devices) [
  | none ↦ err grant_not_found
  | some d ↦ ok d
]

-- The arguments of DecideDeviceAuthorization behind the user code.
pub record Decision : Type 0 where
  pub user_id : String
  pub authenticated_at : Time
  pub auth_methods : List String
  pub assurance_level : String
  pub approve : Bool

abbrev pub decided : Decision → DeviceAuthorization → DeviceAuthorization
decided c d = record d {
  user_id = c.user_id;
  authenticated_at = c.authenticated_at;
  auth_methods = c.auth_methods;
  assurance_level = c.assurance_level;
  status = if c.approve then approved else denied;
}

unfoldable pub decide_device_authorization :
    MemoryRepository → Hash → Decision → Time → MemoryRepository × Reply (Unit {0})
unfolding grant_consent
decide_device_authorization r user_hash c now =
    elim (find_first (awaits_decision user_hash now) r.devices) [
      | none ↦ (r, err grant_not_found)
      | some d ↦
          let s : MemoryRepository = record r {
            devices = change_first (awaits_decision user_hash now) (decided c) r.devices;
          } in
          ((if c.approve then (grant_consent s c.user_id d.client_id d.scope now).0 else s), ok tt)
    ]

abbrev pub polled : Hash → String → DeviceAuthorization → Bool
polled device_hash client_id d = bytes_equal d.device_hash device_hash && d.client_id == client_id

-- `value.LastPollAt != nil && now.Before(value.LastPollAt.Add(value.Interval))`
abbrev pub too_early : Time → DeviceAuthorization → Bool
too_early now d = elim d.last_poll_at [ none ↦ false | some last ↦ before now (last + d.interval) ]

-- The `switch` on the status, for the device with its new `LastPollAt`.
unfoldable pub answer_poll :
    DeviceStatus → DeviceAuthorization → DeviceAuthorization × Reply DeviceAuthorization
answer_poll pending d = (d, err authorization_pending)
answer_poll denied d = (d, err access_denied)
answer_poll consumed d = (d, err grant_consumed)
answer_poll approved d = (record d { status = consumed }, ok (record d { status = consumed }))

-- The body of PollDeviceAuthorization's loop at the device that matches.
unfoldable pub poll_device :
    Time → DeviceAuthorization → DeviceAuthorization × Reply DeviceAuthorization
unfolding answer_poll
poll_device now d =
    if not (after d.expires_at now)
    then (d, err grant_expired)
    else if too_early now d
    then (record d { interval = d.interval + 5 * second; last_poll_at = some now }, err slow_down)
    else answer_poll d.status (record d { last_poll_at = some now })

unfoldable pub poll_device_authorization :
    MemoryRepository → Hash → String → Time → MemoryRepository × Reply DeviceAuthorization
poll_device_authorization r device_hash client_id now =
    let visited =
      visit_first (polled device_hash client_id) (poll_device now) (err grant_not_found)
        r.devices in
    (record r { devices = visited.0 }, visited.1)

abbrev pub session_of : String → String → OidcClientSession → Bool
session_of session_id client_id v = v.session_id == session_id && v.client_id == client_id

unfoldable pub save_oidc_client_session : MemoryRepository → OidcClientSession → MemoryRepository
save_oidc_client_session r value =
    if any (session_of value.session_id value.client_id) r.oidc_sessions
    then record r {
      oidc_sessions =
          change_first (session_of value.session_id value.client_id) (λ _. value) r.oidc_sessions;
    }
    else record r { oidc_sessions = r.oidc_sessions ++ value ∷ [] }

unfoldable pub list_oidc_client_sessions : MemoryRepository → String → List OidcClientSession
list_oidc_client_sessions r session_id = filter (λ v. v.session_id == session_id) r.oidc_sessions

unfoldable pub delete_oidc_client_sessions : MemoryRepository → String → MemoryRepository
delete_oidc_client_sessions r session_id = record r {
  oidc_sessions = filter (λ v. not (v.session_id == session_id)) r.oidc_sessions;
}
