-- ===== src/Oauth/History/Devices.antt =====
-- internal/oauth/store.go: the calls on consents and devices, and what is stored.
use certus.Common.{
  remove_first, String, Bool, true, List, map, ◌≡◌, refl, arith, Time, Hash, find_first,
  change_first, visit_first-state, Grows-map, Grows-change_first, inl, inr, Bool-cases,
  Option-cases, any,
}
use certus.Oauth.Types.{MemoryRepository, DeviceAuthorization}
use certus.Oauth.Revocation.{
  revoke_matching_tokens, deny_if, approved_by, open_of_client, approved_for, revoke_user_tokens,
  revoke_client_tokens, of_user, of_client, of_consent,
}
use certus.Oauth.Consents.{grant_consent, delete_consent, consent_of}
use certus.Oauth.Devices.{
  Decision, awaits_decision, decided, poll_device, decide_device_authorization,
  poll_device_authorization,
}
use certus.Oauth.History.Keeps.{KeepsDevice, KeepsDevice-refl}
use certus.Oauth.History.Persists.{
  Persists, Persists-refl, Persists-trans, Persists-same, codes_refl, access_refl, refresh_refl,
}
use certus.Oauth.History.Tokens.{matching-Persists}

-- After a step that keeps the devices, some are denied: those that are still pending or approved.
pub denied-Persists :
    (r s : MemoryRepository) (p : DeviceAuthorization → Bool)
    → Persists r s
    → s.devices ≡ r.devices
    → ((d : DeviceAuthorization) → KeepsDevice d (deny_if p d))
    → Persists r (record s { devices = map (deny_if p) s.devices })
denied-Persists r s p h e open_only = record {
  codes = h.codes;
  access_tokens = h.access_tokens;
  refresh = h.refresh;
  devices = rw e (Grows-map KeepsDevice (deny_if p) open_only r.devices);
}

pub deny_approved_by :
    (user_id : String) (d : DeviceAuthorization) → KeepsDevice d (deny_if (approved_by user_id) d)
deny_approved_by user_id d = ground arith

pub deny_open :
    (client_id : String) (d : DeviceAuthorization)
    → KeepsDevice d (deny_if (open_of_client client_id) d)
deny_open client_id d = ground arith

pub deny_approved_for :
    (user_id client_id : String) (d : DeviceAuthorization)
    → KeepsDevice d (deny_if (approved_for user_id client_id) d)
deny_approved_for user_id client_id d = ground arith

pub revoke_user-Persists :
    (r : MemoryRepository) (user_id except : String) (now : Time)
    → Persists r (revoke_user_tokens r user_id except now)
unfolding revoke_user_tokens
revoke_user-Persists r user_id except now =
    denied-Persists r (revoke_matching_tokens r (of_user user_id except) now) (approved_by user_id)
      (matching-Persists r (of_user user_id except) now) refl (deny_approved_by user_id)

pub revoke_client-Persists :
    (r : MemoryRepository) (client_id : String) (now : Time)
    → Persists r (revoke_client_tokens r client_id now)
unfolding revoke_client_tokens
revoke_client-Persists r client_id now =
    denied-Persists r (revoke_matching_tokens r (of_client client_id) now)
      (open_of_client client_id) (matching-Persists r (of_client client_id) now) refl
      (deny_open client_id)

pub delete_consent-Persists :
    (r : MemoryRepository) (user_id client_id : String) (now : Time)
    → Persists r (delete_consent r user_id client_id now).0
unfolding delete_consent
delete_consent-Persists r user_id client_id now =
    elim (Bool-cases (any (consent_of user_id client_id) r.consents)) [
      | inl e ↦ rw e (
          denied-Persists r _ (approved_for user_id client_id)
            (Persists-trans r _ _
              (Persists-same r
                (record r { consents = remove_first (consent_of user_id client_id) r.consents })
                refl refl refl refl)
              (matching-Persists _ (of_consent user_id client_id) now))
            refl (deny_approved_for user_id client_id))
      | inr e ↦ rw e (Persists-refl r)
    ]

pub grant_consent-Persists :
    (r : MemoryRepository) (user_id client_id : String) (scopes : List String) (now : Time)
    → Persists r (grant_consent r user_id client_id scopes now).0
unfolding grant_consent
grant_consent-Persists r user_id client_id scopes now =
    elim (Option-cases (find_first (consent_of user_id client_id) r.consents)) [
      | inl e ↦ rw (e, grant_consent) (Persists-same r _ refl refl refl refl)
      | inr (c, e) ↦ rw (e, grant_consent) (Persists-same r _ refl refl refl refl)
    ]

pub decided-Keeps :
    (user_hash : Hash) (c : Decision) (now : Time) (d : DeviceAuthorization)
    → awaits_decision user_hash now d ≡ true
    → KeepsDevice d (decided c d)
decided-Keeps user_hash c now d h = ground arith

pub decide-Persists :
    (r : MemoryRepository) (user_hash : Hash) (c : Decision) (now : Time)
    → Persists r (decide_device_authorization r user_hash c now).0
unfolding decide_device_authorization
decide-Persists r user_hash c now =
    elim (Option-cases (find_first (awaits_decision user_hash now) r.devices)) [
      | inl e ↦ rw (e, decide_device_authorization) (Persists-refl r)
      | inr (d, e) ↦
          let s : MemoryRepository = record r {
            devices = change_first (awaits_decision user_hash now) (decided c) r.devices;
          } in
          let first : Persists r s = record {
            codes = codes_refl r.codes;
            access_tokens = access_refl r.access_tokens;
            refresh = refresh_refl r.refresh;
            devices =
                Grows-change_first KeepsDevice KeepsDevice-refl _ _
                  (λ x h. decided-Keeps user_hash c now x h) r.devices;
          } in
          rw (e, decide_device_authorization)
            (ground (
              arith,
              first,
              Persists-trans r s _ first
                  (grant_consent-Persists s c.user_id d.client_id d.scope now),
            ))
    ]

pub poll_device-Keeps : (now : Time) (d : DeviceAuthorization) → KeepsDevice d (poll_device now d).0
unfolding poll_device
poll_device-Keeps now d = ground arith

pub poll-Persists :
    (r : MemoryRepository) (device_hash : Hash) (client_id : String) (now : Time)
    → Persists r (poll_device_authorization r device_hash client_id now).0
unfolding poll_device_authorization
poll-Persists r device_hash client_id now = record {
  codes = codes_refl r.codes;
  access_tokens = access_refl r.access_tokens;
  refresh = refresh_refl r.refresh;
  devices = rw visit_first-state (
      Grows-change_first KeepsDevice KeepsDevice-refl _ _ (λ d _. poll_device-Keeps now d)
        r.devices);
}
